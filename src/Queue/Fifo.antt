-- ===== src/Queue/Fifo.antt =====
-- What a client of equeue.h expects: an unbounded queue, oldest first.
use libeasy.Prelude.{ℕ, Bool, true, false, List, [], ◌∷◌, ◌++◌, length}
use libeasy.Queue.{null}

-- The calls of a client; the answers of `realloc` are no part of them.
pub data Call : Type 0 where
  push : ℕ → Call
  pop : Call
  is_empty : Call
  element_count : Call

-- What a client sees of a call.
pub data Reply : Type 0 where
  pushed : Bool → Reply
  popped : ℕ → Reply
  emptiness : Bool → Reply
  counted : ℕ → Reply

abbrev pub is_nil : List ℕ → Bool
is_nil [] = true
is_nil (x ∷ xs) = false

-- One call on the list of the items that are queued.
unfoldable pub step : List ℕ → Call → Reply × List ℕ
step xs (Call.push x) = (pushed true, xs ++ x ∷ [])
step [] Call.pop = (popped null, [])
step (x ∷ xs) Call.pop = (popped x, xs)
step xs Call.is_empty = (emptiness (is_nil xs), xs)
step xs Call.element_count = (counted (length xs), xs)

unfoldable pub run : List ℕ → List Call → List Reply
run xs [] = []
run xs (c ∷ cs) = let (r, ys) = step xs c in r ∷ run ys cs
