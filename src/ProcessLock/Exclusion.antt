-- ===== src/ProcessLock/Exclusion.antt =====
-- eprocess_lock.c: at most one process holds the lock.
use libeasy.Prelude.{
  ℕ, zero, suc, ◌+◌, ◌≤◌, ◌≡◌, refl, sym, ap, subst, Bool, true, false, Option, none, some, List,
  [], ◌∷◌, arith, length, if◌then◌else◌, ◌==◌, Bool-cases, inl, inr,
}
use libeasy.Prelude.Int.{ℤ, pos, negsuc}
use libeasy.Prelude.Maps.{has}
use libeasy.ProcessLock.{
  Lock, Kernel, done, again, blocked, process_lock_init, process_try_lock, try_result, wait_result,
  process_lock, process_unlock,
}

-- What is relied on of the kernel, for a semaphore with this value: a decrement succeeds where the
-- value is positive, and where it is zero fails with EAGAIN or waits; an increment succeeds.
pub record IsSemaphore {K : Type 0} (kernel : Kernel K) (id : ℤ) (value : K → ℕ) : Type 0 where
  pub set : (k : K) → value ((kernel.setval id (pos 1) k).1) ≡ 1
  pub take :
      (k : K) (n : ℕ) (nowait : Bool)
      → value k ≡ suc n
      → ((kernel.semop id (negsuc 0) nowait k).0 ≡ done)
        × (value ((kernel.semop id (negsuc 0) nowait k).1) ≡ n)
  pub empty_try : (k : K) → value k ≡ 0 → kernel.semop id (negsuc 0) true k ≡ (again, k)
  pub empty_wait : (k : K) → value k ≡ 0 → kernel.semop id (negsuc 0) false k ≡ (blocked, k)
  pub give :
      (k : K)
      → ((kernel.semop id (pos 1) false k).0 ≡ done)
        × (value ((kernel.semop id (pos 1) false k).1) ≡ suc (value k))

abbrev pub is_one : Option ℤ → Bool
is_one none = false
is_one (some (pos n)) = n == 1
is_one (some (negsuc n)) = false

-- The list without one occurrence of `p`.
abbrev pub remove : ℕ → List ℕ → List ℕ
remove p [] = []
remove p (q ∷ qs) = if p == q then qs else q ∷ remove p qs

length-remove : (p : ℕ) (qs : List ℕ) → has p qs ≡ true → suc (length (remove p qs)) ≡ length qs
length-remove p [] h = absurd (cc)
length-remove p (q ∷ qs) h = ground (arith, length-remove p qs)

nat_eq : (a b : ℕ) → (a == b) ≡ true → a ≡ b
nat_eq a b h = ground arith

nat_ne : (a : ℕ) → (a == 0) ≡ false → 1 ≤ a
nat_ne a h = ground arith

module _ {K : Type 0} (kernel : Kernel K) (lock : Lock) where
  -- The kernel, and the processes whose last call gave them the lock.
  pub record World : Type 0 where
    pub state : K
    pub holders : List ℕ

  abbrev pub locked : ℕ → World → Option ℤ × K → World
  locked p w (r, k) = record { state = k; holders = if is_one r then p ∷ w.holders else w.holders }

  abbrev pub unlocked : ℕ → World → Option ℤ × K → World
  unlocked p w (r, k) = record {
    state = k;
    holders = if is_one r then remove p w.holders else w.holders;
  }

  -- A process tries, waits, or gives back what it holds.
  pub data Step : World → World → Type 0 where
    tries : (p : ℕ) (w : World) → Step w (locked p w (process_try_lock kernel lock w.state))
    waits : (p : ℕ) (w : World) → Step w (locked p w (process_lock kernel lock w.state))
    gives :
        (p : ℕ) (w : World)
        → has p w.holders ≡ true
        → Step w (unlocked p w (process_unlock kernel lock w.state))

  pub data Reach : World → World → Type 0 where
    here : (w : World) → Reach w w
    then_step : (v w x : World) → Reach v w → Step w x → Reach v x

  -- The lock as `process_lock_init` leaves it.
  abbrev pub initial : K → World
  initial k = record { state = (process_lock_init kernel lock k).1; holders = [] }

  module _ (value : K → ℕ) (is : IsSemaphore kernel lock.id value) where
    abbrev pub Balanced : World → Type 0
    Balanced w = value w.state + length w.holders ≡ 1

    try_free :
        (k : K) (n : ℕ)
        → value k ≡ suc n
        → (process_try_lock kernel lock k
            ≡ (some (pos 1), (kernel.semop lock.id (negsuc 0) true k).1))
    unfolding process_try_lock
    try_free k n e =
        ap (λ a. try_result (a, (kernel.semop lock.id (negsuc 0) true k).1))
          ((is.take k n true e).0)

    wait_free :
        (k : K) (n : ℕ)
        → value k ≡ suc n
        → (process_lock kernel lock k ≡ (some (pos 1), (kernel.semop lock.id (negsuc 0) false k).1))
    unfolding process_lock
    wait_free k n e =
        ap (λ a. wait_result (a, (kernel.semop lock.id (negsuc 0) false k).1))
          ((is.take k n false e).0)

    unlock_any :
        (k : K)
        → (process_unlock kernel lock k ≡ (some (pos 1), (kernel.semop lock.id (pos 1) false k).1))
    unfolding process_unlock
    unlock_any k =
        ap (λ a. wait_result (a, (kernel.semop lock.id (pos 1) false k).1)) ((is.give k).0)

    try_held : (k : K) → value k ≡ 0 → process_try_lock kernel lock k ≡ (some (pos 0), k)
    unfolding process_try_lock
    try_held k e = ap try_result (is.empty_try k e)

    wait_held : (k : K) → value k ≡ 0 → process_lock kernel lock k ≡ (none, k)
    unfolding process_lock
    wait_held k e = ap wait_result (is.empty_wait k e)

    locked-Balanced :
        (p : ℕ) (w : World) (r : Option ℤ × K) (nowait : Bool)
        → Balanced w
        → ((n : ℕ)
            → value w.state ≡ suc n
            → r ≡ (some (pos 1), (kernel.semop lock.id (negsuc 0) nowait w.state).1))
        → (value w.state ≡ 0 → (is_one (r.0) ≡ false) × (r.1 ≡ w.state))
        → Balanced (locked p w r)
    locked-Balanced p w r nowait b free held = go (value w.state) refl
      where
        go : (v : ℕ) → value w.state ≡ v → Balanced (locked p w r)
        go zero e = let k = held e in rw (k.0, k.1) b
        go (suc n) e =
            subst (λ r'. Balanced (locked p w r')) (sym (free n e))
              (omega (arith, (is.take w.state n nowait e).1))

    Step-Balanced : (w x : World) → Step w x → Balanced w → Balanced x
    Step-Balanced w' x' (tries p w) b =
        locked-Balanced p w (process_try_lock kernel lock w.state) true b
          (λ n e. try_free w.state n e)
          (λ e. let k = try_held w.state e in (ap (λ r. is_one (r.0)) k, ap (λ r. r.1) k))
    Step-Balanced w' x' (waits p w) b =
        locked-Balanced p w (process_lock kernel lock w.state) false b
          (λ n e. wait_free w.state n e)
          (λ e. let k = wait_held w.state e in (ap (λ r. is_one (r.0)) k, ap (λ r. r.1) k))
    Step-Balanced w' x' (gives p w h) b =
        subst (λ r. Balanced (unlocked p w r)) (sym (unlock_any w.state))
          (omega (arith, (is.give w.state).1, length-remove p w.holders h))

    Reach-Balanced : (v w : World) → Reach v w → Balanced v → Balanced w
    Reach-Balanced v' w' (here v) b = b
    Reach-Balanced v' x' (then_step v w x r s) b = Step-Balanced w x s (Reach-Balanced v w r b)

    -- Once the lock is initialised, and where none but a holder gives it back, at most one process
    -- holds it, in whatever order they call. Where none holds it `process_try_lock` gets it; where
    -- one does it answers 0.
    pub exclusion :
        (k : K) (w : World)
        → Reach (initial k) w
        → (length w.holders ≤ 1)
          × ((process_try_lock kernel lock w.state).0
              ≡ (if length w.holders == 0 then some (pos 1) else some (pos 0)))
    unfolding process_lock_init
    exclusion k w r =
        let b = Reach-Balanced (initial k) w r (omega (arith, is.set k)) in
        (
          omega arith,
          elim (Bool-cases (length w.holders == 0)) [
            | inl none_holds ↦ rw (none_holds) (
                ap (λ o. o.0)
                  (try_free w.state 0 (omega (arith, nat_eq (length w.holders) 0 none_holds))))
            | inr one_holds ↦ rw (one_holds) (
                ap (λ o. o.0)
                  (try_held w.state (omega (arith, nat_ne (length w.holders) one_holds))))
          ],
        )
