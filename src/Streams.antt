-- ===== src/Streams.antt =====
-- The doubly linked lists of streams that network/tcp_server.c and network/tcp_client.c keep. Both
-- files have these functions for them; the client also sets the pointers of a stream to NULL that it
-- deletes from the idle list.
mod Linked
pub mod Chains
pub mod Delete
pub mod Add
pub mod Move
pub mod Fill
mod Tests
use libeasy.Prelude.{ℕ, zero, suc, Option, none, some, List, [], ◌∷◌}
use libeasy.Prelude.Int.{ℤ, pos, ◌+ℤ◌, ◌-ℤ◌}
use libeasy.Prelude.Maps.{update}

-- The pointers `last` and `next` of a stream. A stream is its index in the array `streams`, and
-- `none` is NULL.
pub record Links : Type 0 where
  pub last : Option ℕ
  pub next : Option ℕ

abbrev pub Store : Type 0
Store = ℕ → Links

-- The head, the tail and the number of streams of one list.
pub record Chain : Type 0 where
  pub head : Option ℕ
  pub tail : Option ℕ
  pub num : ℤ

abbrev pub empty : Chain
empty = record { head = none; tail = none; num = pos 0 }

abbrev pub set_next : Store → ℕ → Option ℕ → Store
set_next h a next = update h a (record (h a) { next = next })

abbrev pub set_last : Store → ℕ → Option ℕ → Store
set_last h a last = update h a (record (h a) { last = last })

-- The first test of `delete_stream_from_busy_list`, on `stream->last`.
unfoldable pub unlink_last : (last next : Option ℕ) → Store × Chain → Store × Chain
unlink_last none next (h, c) = (h, record c { head = next })
unlink_last (some a) next (h, c) = (set_next h a next, c)

-- The second test, on `stream->next`.
unfoldable pub unlink_next : (last next : Option ℕ) → Store × Chain → Store × Chain
unlink_next last none (h, c) = (h, record c { tail = last })
unlink_next last (some b) (h, c) = (set_last h b last, c)

abbrev pub one_less : Store × Chain → Store × Chain
one_less (h, c) = (h, record c { num = c.num -ℤ pos 1 })

abbrev pub unlink_rest : (stream : ℕ) → Store × Chain → Store × Chain
unlink_rest stream (h, c) = unlink_next ((h stream).last) ((h stream).next) (h, c)

-- `delete_stream_from_busy_list`, and `delete_stream_from_idle_list`.
unfoldable pub delete_stream : (stream : ℕ) → Store × Chain → Store × Chain
delete_stream stream (h, c) =
    one_less (unlink_rest stream (unlink_last ((h stream).last) ((h stream).next) (h, c)))

abbrev pub one_more : Chain → Chain
one_more c = record c { num = c.num +ℤ pos 1 }

abbrev pub add_first : (stream : ℕ) → Store × Chain → Store × Chain
add_first stream (h, c) = (
  update h stream (record { last = none; next = none }),
  one_more (record c { head = some stream; tail = some stream }),
)

abbrev pub add_behind : (tail stream : ℕ) → Store × Chain → Store × Chain
add_behind tail stream (h, c) = (
  set_last (set_next (set_next h tail (some stream)) stream none) stream (some tail),
  one_more (record c { tail = some stream }),
)

unfoldable pub add_at : (head tail : Option ℕ) (stream : ℕ) → Store × Chain → Store × Chain
add_at none tail stream s = add_first stream s
add_at (some a) none stream s = add_first stream s
add_at (some a) (some b) stream s = add_behind b stream s

-- `add_stream_into_busy_list`, and `add_stream_into_idle_list`.
unfoldable pub add_stream : (stream : ℕ) → Store × Chain → Store × Chain
add_stream stream (h, c) = add_at c.head c.tail stream (h, c)
