-- ===== src/Property/File.antt =====
-- eproperty.c: the reading of a whole file.
use libeasy.Prelude.{
  ℕ, ◌≡◌, ◌≢◌, refl, ap, none, some, List, [], ◌∷◌, ◌++◌, ◌==◌, ◌⊎◌, Bool-cases, inl, inr, arith,
}
use libeasy.Prelude.Fault.{Returns, Returns-map}
use libeasy.Property.{item_of, read_lines, property_read}

-- The items of lines, where the loop takes each line for nothing or for an item.
pub data Items (c : ℕ) : List (List ℕ) → List (List ℕ × List ℕ) → Type 0 where
  done : Items c [] []
  skipped :
      (line : List ℕ) (lines : List (List ℕ)) (items : List (List ℕ × List ℕ))
      → item_of c line ≡ some none
      → Items c lines items
      → Items c (line ∷ lines) items
  read :
      (line : List ℕ) (lines : List (List ℕ)) (key value : List ℕ) (items : List (List ℕ × List ℕ))
      → item_of c line ≡ some (some (key, value))
      → Items c lines items
      → Items c (line ∷ lines) ((key, value) ∷ items)

module _ {A : Type 0} (process : (key value : List ℕ) → A → ℕ × A) where
  -- The answer and the state after a call for each of the items, whatever the calls answer.
  abbrev pub all_calls : List (List ℕ × List ℕ) → ℕ × A → ℕ × A
  all_calls [] s = s
  all_calls ((key, value) ∷ items) s = all_calls items (process key value (s.1))

  -- Every call but the last one answers a number that is not 0.
  abbrev pub GoesOn : List (List ℕ × List ℕ) → ℕ × A → Type 0
  GoesOn [] s = Unit
  GoesOn ((key, value) ∷ []) s = Unit
  GoesOn ((key, value) ∷ (item ∷ items)) s =
      ((process key value (s.1)).0 ≢ 0) × GoesOn (item ∷ items) (process key value (s.1))

  -- The function was called for the first of the items: for all of them, or up to one for which it
  -- answered 0.
  pub record Calls (items : List (List ℕ × List ℕ)) (s out : ℕ × A) : Type 0 where
    pub called : List (List ℕ × List ℕ)
    pub rest : List (List ℕ × List ℕ)
    pub split : items ≡ called ++ rest
    pub goes_on : GoesOn called s
    pub out_is : out ≡ all_calls called s
    pub end : (rest ≡ []) ⊎ (out.0 ≡ 0)

  Calls-one :
      (key value : List ℕ) (items : List (List ℕ × List ℕ)) (s : ℕ × A)
      → (process key value (s.1)).0 ≡ 0
      → Calls ((key, value) ∷ items) s (process key value (s.1))
  Calls-one key value items s stop = record {
    called = (key, value) ∷ [];
    rest = items;
    split = refl;
    goes_on = tt;
    out_is = refl;
    end = inr stop;
  }

  GoesOn-cons :
      (key value : List ℕ) (items : List (List ℕ × List ℕ)) (s : ℕ × A)
      → (process key value (s.1)).0 ≢ 0
      → GoesOn items (process key value (s.1))
      → GoesOn ((key, value) ∷ items) s
  GoesOn-cons key value [] s on g = tt
  GoesOn-cons key value (item ∷ items) s on g = (on, g)

  Calls-cons :
      (key value : List ℕ) (items : List (List ℕ × List ℕ)) (s out : ℕ × A)
      → (process key value (s.1)).0 ≢ 0
      → Calls items (process key value (s.1)) out
      → Calls ((key, value) ∷ items) s out
  Calls-cons key value items s out on c = record {
    called = (key, value) ∷ c.called;
    rest = c.rest;
    split = ap (λ is. (key, value) ∷ is) c.split;
    goes_on = GoesOn-cons key value c.called s on c.goes_on;
    out_is = c.out_is;
    end = c.end;
  }

  read_lines-Calls :
      (c : ℕ) (lines : List (List ℕ)) (items : List (List ℕ × List ℕ)) (result : ℕ) (a : A)
      → Items c lines items
      → Returns (read_lines process c lines result a) (Calls items (result, a))
  unfolding read_lines
  read_lines-Calls c [] [] result a done = record {
    called = [];
    rest = [];
    split = refl;
    goes_on = tt;
    out_is = refl;
    end = inl refl;
  }
  read_lines-Calls c [] (i ∷ is) result a x = elim x [ ]
  read_lines-Calls c (l ∷ ls) is result a (skipped line lines items e h) =
      rw (e) (read_lines-Calls c lines items result a h)
  read_lines-Calls c (l ∷ ls) (i ∷ is) result a (read line lines key value items e h) =
      let answer = process key value a in
      rw (e) (elim (Bool-cases (answer.0 == 0)) [
        | inl stop ↦ rw (stop) (Calls-one key value items (result, a) (ground arith))
        | inr on ↦ rw (on) (
            Returns-map (read_lines process c lines (answer.0) (answer.1)) (Calls items answer)
              (Calls ((key, value) ∷ items) (result, a))
              (read_lines-Calls c lines items (answer.0) (answer.1) h)
              (λ out k. Calls-cons key value items (result, a) out (ground arith) k))
      ])

  -- For a file of which each line, also behind the place where the reading stops, is blank, a comment or
  -- an item: `property_read` meets no undefined behaviour and calls the function for the items in turn,
  -- for all of them or up to the first call that answers 0. It answers as the last call did, or 0 where
  -- there is no item.
  pub property_read-Calls :
      (c : ℕ) (lines : List (List ℕ)) (items : List (List ℕ × List ℕ)) (a : A)
      → Items c lines items
      → Returns (property_read process c (some lines) a) (Calls items (0, a))
  unfolding property_read
  property_read-Calls c lines items a h = read_lines-Calls c lines items 0 a h
