-- ===== src/IpZone/Ended.antt =====
-- ip_zone/ip_zone.c: a file whose lines are all ended is read to its end, or to a line that is refused.
use libeasy.Prelude.{
  ℕ, ◌<◌, ◌≡◌, refl, sym, subst, Bool, true, false, Option, none, some, List, [], ◌∷◌, ◌⊎◌, inl,
  inr, length,
}
use libeasy.Prelude.Fault.{Returns, ◌>>=◌}
use libeasy.Prelude.Int.{pos}
use libeasy.IpZone.{Zones, Host, leaf}
use libeasy.IpZone.Load.{
  add_line, next_line, Loaded, loaded, refused, stuck, unfinished, File, ip_zones_load,
}
use libeasy.IpZone.Files.{bytes_of, AreText, add_lines, ip_zones_load-add_lines}

module _ (h : Host) (room : ℕ → Bool) where
  -- No line is undefined behaviour by itself, whatever was read before it.
  abbrev pub AreSound : List (Bool × List ℕ) → Type 0
  AreSound [] = Unit
  AreSound ((crlf, line) ∷ lines) =
      ((malloc : Bool) (zs : Zones) → Returns (add_line h malloc line zs) (λ r. Unit))
      × AreSound lines

  -- Every line was accepted, from the zones `zs` to the zones `end`.
  abbrev pub AllAdded : List (Bool × List ℕ) → (zs end : Zones) → Type 0
  AllAdded [] zs end = zs ≡ end
  AllAdded ((crlf, line) ∷ lines) zs end =
      (ys : Zones) × (add_line h (room zs.count) line zs ≡ some (true, ys)) × AllAdded lines ys end

  -- A line was refused, and those before it were accepted.
  abbrev pub OneRefused : List (Bool × List ℕ) → Zones → Type 0
  OneRefused [] zs = ⊥
  OneRefused ((crlf, line) ∷ lines) zs =
      (ys : Zones) × ((add_line h (room zs.count) line zs ≡ some (false, ys))
        ⊎ ((add_line h (room zs.count) line zs ≡ some (true, ys)) × OneRefused lines ys))

  abbrev pub Settled : List (Bool × List ℕ) → Zones → Loaded → Type 0
  Settled lines zs (loaded end) = AllAdded lines zs end
  Settled lines zs refused = OneRefused lines zs
  Settled lines zs stuck = ⊥
  Settled lines zs unfinished = ⊥

  Settled-cons :
      (crlf : Bool) (line : List ℕ) (lines : List (Bool × List ℕ)) (zs ys : Zones) (r : Loaded)
      → add_line h (room zs.count) line zs ≡ some (true, ys)
      → Settled lines ys r
      → Settled ((crlf, line) ∷ lines) zs r
  Settled-cons crlf line lines zs ys (loaded end) e s = (ys, e, s)
  Settled-cons crlf line lines zs ys refused e s = (ys, inr (e, s))
  Settled-cons crlf line lines zs ys stuck e s = s
  Settled-cons crlf line lines zs ys unfinished e s = s

  Returns-cons :
      (crlf : Bool) (line : List ℕ) (lines : List (Bool × List ℕ)) (zs ys : Zones)
      (o : Option Loaded)
      → add_line h (room zs.count) line zs ≡ some (true, ys)
      → Returns o (Settled lines ys)
      → Returns o (Settled ((crlf, line) ∷ lines) zs)
  Returns-cons crlf line lines zs ys none e s = s
  Returns-cons crlf line lines zs ys (some r) e s = Settled-cons crlf line lines zs ys r e s

  next_line-Settled :
      (crlf : Bool) (line : List ℕ) (lines : List (Bool × List ℕ)) (zs : Zones)
      (m : Option (Bool × Zones))
      → add_line h (room zs.count) line zs ≡ m
      → Returns m (λ r. Unit)
      → ((ys : Zones) → Returns (add_lines h room lines [] ys) (Settled lines ys))
      → Returns
          (m >>= next_line (λ rest ys. add_lines h room lines [] ys) (bytes_of lines []))
          (Settled ((crlf, line) ∷ lines) zs)
  next_line-Settled crlf line lines zs none e r more = r
  next_line-Settled crlf line lines zs (some (true, ys)) e r more =
      Returns-cons crlf line lines zs ys (add_lines h room lines [] ys) e (more ys)
  next_line-Settled crlf line lines zs (some (false, ys)) e r more = (ys, inl e)

  add_lines-Settled :
      (lines : List (Bool × List ℕ)) (zs : Zones)
      → AreSound lines
      → Returns (add_lines h room lines [] zs) (Settled lines zs)
  add_lines-Settled [] zs sound = refl
  add_lines-Settled ((crlf, line) ∷ lines) zs sound =
      next_line-Settled crlf line lines zs (add_line h (room zs.count) line zs) refl
        (sound.0 (room zs.count) zs) (λ ys. add_lines-Settled lines ys (sound.1))

  -- Of a file that can be read, and whose lines are ended by LF or CR LF and are each no undefined
  -- behaviour by themselves, `ip_zones_load` with memory for the table comes to an end: it returns the
  -- zones that are there once every line was accepted, or NULL where a line is refused.
  pub ip_zones_load-Settled :
      (f : File) (lines : List (Bool × List ℕ))
      → f.fopen ≡ true
      → f.malloc ≡ true
      → f.fread ≡ bytes_of lines []
      → f.length_of ≡ pos (length (bytes_of lines []))
      → 0 < length (bytes_of lines [])
      → AreText lines
      → AreSound lines
      → Returns (ip_zones_load h true room f) (Settled lines (record { tree = leaf; count = 0 }))
  ip_zones_load-Settled f lines opened memory bytes size some_byte text sound =
      let start : Zones = record { tree = leaf; count = 0 } in
      subst (λ o. Returns o (Settled lines start))
        (sym (ip_zones_load-add_lines h room f lines [] opened memory bytes size some_byte text tt))
        (add_lines-Settled lines start sound)
