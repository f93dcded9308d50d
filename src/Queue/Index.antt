-- ===== src/Queue/Index.antt =====
-- equeue.c: the arithmetic of the indices of a ring.
use native.Mathlib.Nat.{mod-eq_of_lt, mod-add-mod, add_assoc}
use libeasy.Prelude.{
  ℕ, suc, ◌+◌, ◌-◌, ◌*◌, ◌%◌, ◌≤◌, ◌<◌, ◌≡◌, ◌≢◌, ◌⊎◌, sym, ap, ◌∙◌, inl, inr, arith, dec_lt,
}

-- A sum of two indices goes round the end once at most.
pub mod_once :
    (x size : ℕ) → x < size * 2 → (x < size) × (x % size ≡ x) ⊎ (size ≤ x) × (x % size ≡ x - size)
mod_once x size h = elim (dec_lt x size) [
  | yes lt ↦ inl (lt, mod-eq_of_lt lt)
  | no ge ↦ inr (omega arith, grind arith)
]

module _ (size front rear : ℕ) (hf : front < size) (hr : rear < size) where
  pub rear_of_count : rear ≡ (front + (rear + size - front) % size) % size
  rear_of_count =
      let m = mod_once (rear + size - front) size (omega arith) in
      omega (arith, mod_once (front + (rear + size - front) % size) size (omega arith))

  pub count_bound : (rear + 1) % size ≢ front → (rear + size - front) % size + 1 < size
  count_bound room = omega (
    arith,
    mod_once (rear + size - front) size (omega arith),
    mod_once (rear + 1) size (omega arith),
  )

  pub count-push :
      (rear + 1) % size ≢ front
      → ((rear + 1) % size + size - front) % size ≡ suc ((rear + size - front) % size)
  count-push room =
      let m = mod_once (rear + size - front) size (omega arith) in
      let r = mod_once (rear + 1) size (omega arith) in
      omega (arith, mod_once ((rear + 1) % size + size - front) size (omega arith))

  pub rear-push : (rear + 1) % size ≡ (front + 1 + (rear + size - front) % size) % size
  rear-push =
      let m = mod_once (rear + size - front) size (omega arith) in
      let r = mod_once (rear + 1) size (omega arith) in
      omega (arith, mod_once (front + 1 + (rear + size - front) % size) size (omega arith))

  pub count-pop :
      front ≢ rear → (rear + size - front) % size ≡ suc ((rear + size - (front + 1) % size) % size)
  count-pop some_left =
      let m = mod_once (rear + size - front) size (omega arith) in
      let r = mod_once (front + 1) size (omega arith) in
      omega (arith, mod_once (rear + size - (front + 1) % size) size (omega arith))

  pub count_full : (rear + 1) % size ≡ front → (rear + size - front) % size + 1 ≡ size
  count_full e = omega (
    arith,
    mod_once (rear + size - front) size (omega arith),
    mod_once (rear + 1) size (omega arith),
  )

  pub count_zero : front ≡ rear → (rear + size - front) % size ≡ 0
  count_zero e = omega (arith, mod_once (rear + size - front) size (omega arith))

  pub count_pos : front ≢ rear → 0 < (rear + size - front) % size
  count_pos ne = omega (arith, count-pop ne)

-- Fewer than `size` steps round the ring do not come back.
pub apart : (size p k n : ℕ) → p ≤ size → k < n → n < size → (p + k) % size ≢ (p + n) % size
apart size p k n hp hk hn =
    omega (arith, mod_once (p + k) size (omega arith), mod_once (p + n) size (omega arith))

-- After doubling there is room, and the number of items is the old one.
module _ (size front n : ℕ) (hf : front < size) (hn : n < size) where
  pub room_doubled : (front + n + 1) % (size * 2) ≢ front
  room_doubled = omega (arith, mod-eq_of_lt {n = front + n + 1} {m = size * 2} (omega arith))

  pub count_doubled : (front + n + size * 2 - front) % (size * 2) ≡ n
  count_doubled = omega (arith, mod_once (front + n + size * 2 - front) (size * 2) (omega arith))

-- A step from a reduced position.
pub step_reduced : (size p k : ℕ) → (p + 1 + k) % size ≡ (p % size + 1 + k) % size
step_reduced size p k = sym (
    ap (λ t. t % size) (add_assoc (p % size) 1 k)
    ∙ mod-add-mod p size (1 + k)
    ∙ ap (λ t. t % size) (sym (add_assoc p 1 k)))
