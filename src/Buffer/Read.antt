-- ===== src/Buffer/Read.antt =====
-- ebuffer.c: what `buffer_read` takes.
use libeasy.Prelude.{ℕ, zero, suc, ◌<◌, ◌≡◌, true, none, some, arith, drop, ltb}
use libeasy.Prelude.Int.{pos}
use libeasy.Buffer.{Buffer, read}
use libeasy.Buffer.Contents.{contents, IsValid}

-- What a read of `n` bytes leaves: the rest of the unread bytes.
pub record Taken (b : Buffer) (n : ℕ) (b' : Buffer) : Type 0 where
  pub valid : IsValid b'
  pub rest : contents b' ≡ drop n (contents b)

-- Once `pos` has run past `last`, every `buffer_read` with proper arguments is a fault.
pub read_past : (b : Buffer) (n : ℕ) → b.last < b.from → 0 < n → read (some b) true (pos n) ≡ none
unfolding read
read_past b zero past h = absurd (omega arith)
read_past b (suc n) past h = let out : ltb b.last b.from ≡ true = ground arith in rw out
