-- ===== src/Log/Output.antt =====
-- elog.c: what a call of `log_by_level` gives out.
use libeasy.Prelude.{
  ℕ, zero, suc, ◌≤◌, ◌<◌, ◌≡◌, ◌≢◌, refl, sym, ap, true, false, some, List, [], ◌∷◌, arith,
  get_elem?, min,
}
use libeasy.Prelude.Int.{ℤ, pos, ltb_ℤ}
use libeasy.Prelude.Text.{codes}
use libeasy.Log.{
  Log, Call, wrote, Destination, console, file, syslog, Answer, log_level_map, to_fd,
  to_destination, clamped, log_by_level, line, format_buffer, nothing_printed,
}

clamped-pos : (n : ℕ) → clamped (pos n) ≡ pos (min n 3)
clamped-pos n = ground arith

-- The level, cut off at the highest, has a name.
name_of : (n : ℕ) → (name : List ℕ) × (get_elem? log_level_map (min n 3) ≡ some name)
name_of zero = (codes "DEBUG", refl)
name_of (suc zero) = (codes "INFO", refl)
name_of (suc (suc zero)) = (codes "WARN", refl)
name_of (suc (suc (suc n))) =
    let e : 3 ≡ min (suc (suc (suc n))) 3 = omega arith in
    (codes "ERROR", ap (λ i. get_elem? log_level_map i) (sym e))

module _ (c : Call) (l : Log) (n t : ℕ) (fmt : List ℕ) (threshold : l.level ≡ pos t) where
  -- A message of a level that is not below the threshold goes to the destination.
  pub log_by_level-passes :
      t ≤ n → log_by_level c l (pos n) fmt ≡ to_destination l.dst c l (pos (min n 3)) fmt
  unfolding log_by_level
  log_by_level-passes h =
      let open_gate : ltb_ℤ (pos n) (pos t) ≡ false = ground arith in
      rw (threshold, open_gate, clamped-pos n) refl

  pub log_by_level-stops : n < t → log_by_level c l (pos n) fmt ≡ some (1, [])
  unfolding log_by_level
  log_by_level-stops h =
      let gate : ltb_ℤ (pos n) (pos t) ≡ true = ground arith in rw (threshold, gate) refl

pub to_destination-fd :
    (d : Destination) (c : Call) (l : Log) (level : ℤ) (fmt : List ℕ)
    → d ≢ syslog
    → to_destination d c l level fmt ≡ to_fd c l level fmt
to_destination-fd console c l level fmt h = refl
to_destination-fd file c l level fmt h = refl
to_destination-fd syslog c l level fmt h = absurd (h refl)

module _ (c : Call) (l : Log) (n : ℕ) (fmt name : List ℕ)
    (named : get_elem? log_level_map n ≡ some name) where
  pub to_fd-line :
      (b : ℕ) (text : List ℕ)
      → c.expand (format_buffer name c.now fmt) ≡ some (b ∷ text)
      → to_fd c l (pos n) fmt ≡ some (1, wrote l.fd (line (b ∷ text)) ∷ [])
  unfolding to_fd
  to_fd-line b text e = rw (named, e) refl

-- The three outcomes of a message of level `n` against the threshold `t`.
pub data Written (c : Call) (l : Log) (n t : ℕ) (fmt name : List ℕ) : Answer → Type 0 where
  below : n < t → Written c l n t fmt name (some (1, []))
  unprinted :
      t ≤ n
      → nothing_printed (c.expand (format_buffer name c.now fmt)) ≡ true
      → Written c l n t fmt name (some (0, []))
  printed :
      t ≤ n
      → (b : ℕ) (text : List ℕ) → c.expand (format_buffer name c.now fmt) ≡ some (b ∷ text)
      → Written c l n t fmt name (some (1, wrote l.fd (line (b ∷ text)) ∷ []))
