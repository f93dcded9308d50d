-- ===== src/IpZone/Files.antt =====
-- ip_zone/ip_zone.c: the loop over the lines of a file ends, and reads each line once.
use libeasy.Prelude.{
  ℕ, zero, suc, ◌+◌, ◌≤◌, ◌<◌, ◌≡◌, refl, sym, ap, ap₂, ◌∙◌, Bool, true, false, not, ◌||◌, ◌&&◌,
  ◌==◌, Option, none, some, List, [], ◌∷◌, ◌++◌, arith, if◌then◌else◌, ◌==◌, length, take, drop,
  length-append, length-drop, Bool-cases, inl, inr,
}
use libeasy.Prelude.Fault.{◌>>=◌}
use libeasy.Prelude.Int.{pos, ltb_ℤ}
use libeasy.Prelude.Slices.{drop-drop, drop-length, take-length}
use libeasy.IpZone.{Zones, Host, leaf, ip_zones_add}
use libeasy.IpZone.Load.{
  Scan, illegal, ended, unended, scan_line, add_line, Loaded, loaded, refused, stuck, unfinished,
  unended_string, skip_spaces, bounded, read_again, c_string, next_line, on_scan, load_loop, File,
  read_ip_zones_from_file, load_bytes, ip_zones_load,
}
use libeasy.IpZone.Scanning.{IsText, end_of, scan_line-end_of, scan_line-unended, skip_positive}

-- The bytes of a file: lines with their ends, and what follows the last end.
abbrev pub bytes_of : List (Bool × List ℕ) → (tail : List ℕ) → List ℕ
bytes_of [] tail = tail
bytes_of ((crlf, line) ∷ lines) tail = line ++ (end_of crlf ++ bytes_of lines tail)

abbrev pub AreText : List (Bool × List ℕ) → Type 0
AreText [] = Unit
AreText ((crlf, line) ∷ lines) = IsText line × AreText lines

-- What becomes of the bytes behind the last end.
abbrev pub at_end : Host → (room : ℕ → Bool) → (tail : List ℕ) → Zones → Option Loaded
at_end h room [] zs = some (loaded zs)
at_end h room (c ∷ cs) zs = unended_string h (room zs.count) (skip_spaces (c ∷ cs)) zs

-- The lines, one after the other, until one is refused.
abbrev pub add_lines :
    Host → (room : ℕ → Bool) → List (Bool × List ℕ) → (tail : List ℕ) → Zones → Option Loaded
add_lines h room [] tail zs = at_end h room tail zs
add_lines h room ((crlf, line) ∷ lines) tail zs =
    add_line h (room zs.count) line zs
    >>= next_line (λ rest ys. add_lines h room lines tail ys) (bytes_of lines tail)

end_positive : (crlf : Bool) → 0 < length (end_of crlf)
end_positive true = omega arith
end_positive false = omega arith

length_line :
    (crlf : Bool) (line rest : List ℕ)
    → length (line ++ (end_of crlf ++ rest)) ≡ length line + (length (end_of crlf) + length rest)
length_line crlf line rest =
    length-append line (end_of crlf ++ rest)
    ∙ ap (λ n. length line + n) (length-append (end_of crlf) rest)

drop_line :
    (crlf : Bool) (line rest : List ℕ)
    → drop (0 + length line + length (end_of crlf)) (line ++ (end_of crlf ++ rest)) ≡ rest
drop_line crlf line rest =
    sym (drop-drop (0 + length line) (length (end_of crlf)) (line ++ (end_of crlf ++ rest)))
    ∙ ap (drop (length (end_of crlf)))
        (drop-length line (end_of crlf ++ rest) (0 + length line) (omega arith))
    ∙ drop-length (end_of crlf) rest (length (end_of crlf)) refl

read_file :
    (f : File) (bytes : List ℕ)
    → f.fopen ≡ true
    → f.malloc ≡ true
    → f.fread ≡ bytes
    → f.length_of ≡ pos (length bytes)
    → 0 < length bytes
    → read_ip_zones_from_file f ≡ some bytes
unfolding read_ip_zones_from_file
read_file f bytes opened memory is size some_byte =
    let long : ltb_ℤ (pos 0) (pos (length bytes)) ≡ true = ground arith in
    let full : ((length bytes == 0) || not (length bytes == length bytes)) ≡ false = ground arith in
    rw (opened, memory, is, size)
      (ap₂ (λ b c. if b then if c then none else some bytes else none) long full)

module _ (h : Host) (room : ℕ → Bool) where
  load_loop-on_scan :
      (fuel : ℕ) (bytes : List ℕ) (zs : Zones)
      → 0 < length bytes
      → load_loop h room (suc fuel) bytes zs
        ≡ on_scan h room (λ rest ys. load_loop h room fuel rest ys) bytes zs (scan_line 0 bytes)
  unfolding load_loop
  load_loop-on_scan fuel [] zs k = absurd (omega arith)
  load_loop-on_scan fuel (c ∷ cs) zs k = refl

  next_line-same :
      (f g : List ℕ → Zones → Option Loaded) (rest : List ℕ) (m : Option (Bool × Zones))
      → ((zs : Zones) → f rest zs ≡ g rest zs)
      → (m >>= next_line f rest) ≡ (m >>= next_line g rest)
  next_line-same f g rest none same = refl
  next_line-same f g rest (some (true, zs)) same = same zs
  next_line-same f g rest (some (false, zs)) same = refl

  -- As many rounds as the file has bytes are enough to read each of its lines once. What follows the
  -- last end is read as a line without an end.
  pub load_loop-add_lines :
      (fuel : ℕ) (lines : List (Bool × List ℕ)) (tail : List ℕ) (zs : Zones)
      → length (bytes_of lines tail) ≤ fuel
      → AreText lines
      → IsText tail
      → load_loop h room fuel (bytes_of lines tail) zs ≡ add_lines h room lines tail zs
  unfolding load_loop
  load_loop-add_lines fuel [] [] zs k t e = refl
  load_loop-add_lines zero [] (c ∷ cs) zs k t e = absurd (omega arith)
  load_loop-add_lines (suc fuel) [] (c ∷ cs) zs k t e =
      ap (on_scan h room (λ rest ys. load_loop h room fuel rest ys) (c ∷ cs) zs)
        (scan_line-unended 0 (c ∷ cs) e)
  load_loop-add_lines zero ((crlf, line) ∷ lines) tail zs k t e =
      absurd (omega (arith, length_line crlf line (bytes_of lines tail), end_positive crlf))
  load_loop-add_lines (suc fuel) ((crlf, line) ∷ lines) tail zs k t e =
      let rest = bytes_of lines tail in
      load_loop-on_scan fuel (line ++ (end_of crlf ++ rest)) zs
        (omega (arith, length_line crlf line rest, end_positive crlf))
      ∙ ap
          (on_scan h room (λ cs ys. load_loop h room fuel cs ys) (line ++ (end_of crlf ++ rest)) zs)
          (scan_line-end_of crlf 0 line rest (t.0))
      ∙ ap₂
          (λ l cs.
            add_line h (room zs.count) l zs >>= next_line (λ ds ys. load_loop h room fuel ds ys) cs)
          (take-length line (end_of crlf ++ rest) (0 + length line) (omega arith))
          (drop_line crlf line rest)
      ∙ next_line-same (λ ds ys. load_loop h room fuel ds ys)
          (λ ds ys. add_lines h room lines tail ys) rest (add_line h (room zs.count) line zs)
          (λ ys.
            load_loop-add_lines fuel lines tail ys
              (omega (arith, length_line crlf line rest, end_positive crlf)) (t.1) e)

  -- Whatever the bytes, as many rounds as there are bytes are enough.
  abbrev pub Finished : Option Loaded → Type 0
  Finished none = Unit
  Finished (some (loaded zs)) = Unit
  Finished (some refused) = Unit
  Finished (some stuck) = Unit
  Finished (some unfinished) = ⊥

  read_again-Finished : (first : ℕ) (m : Option (Bool × Zones)) → Finished (m >>= read_again first)
  read_again-Finished first none = tt
  read_again-Finished first (some (ok, zs)) = elim (Bool-cases (ok && (first == b'/'))) [
    | inl hit ↦ simp (hit) tt
    | inr miss ↦ simp (miss) tt
  ]

  unended_string-Finished :
      (malloc : Bool) (cs : List ℕ) (zs : Zones) → Finished (unended_string h malloc cs zs)
  unfolding unended_string
  unended_string-Finished malloc [] zs = tt
  unended_string-Finished malloc (c ∷ cs) zs = elim (Bool-cases ((c == 0) || (c == b'#'))) [
    | inl hit ↦ simp (hit) tt
    | inr miss ↦ elim (Bool-cases (malloc && bounded (c ∷ cs))) [
      | inl ends ↦
          let room : malloc ≡ true = ground arith in
          let end : bounded (c ∷ cs) ≡ true = ground arith in
          simp (miss, room, end)
            (read_again-Finished c (ip_zones_add h true (c_string (c ∷ cs)) zs))
      | inr runs_on ↦ elim (Bool-cases malloc) [
        | inl room ↦ let no : bounded (c ∷ cs) ≡ false = ground arith in simp (miss, room, no) tt
        | inr full ↦ simp (miss, full) tt
      ]
    ]
  ]

  next_line-Finished :
      (f : List ℕ → Zones → Option Loaded) (rest : List ℕ) (m : Option (Bool × Zones))
      → ((zs : Zones) → Finished (f rest zs))
      → Finished (m >>= next_line f rest)
  next_line-Finished f rest none k = tt
  next_line-Finished f rest (some (true, zs)) k = k zs
  next_line-Finished f rest (some (false, zs)) k = tt

  on_scan-Finished :
      (fuel : ℕ) (bytes : List ℕ) (zs : Zones) (s : Scan)
      → scan_line 0 bytes ≡ s
      → ((rest : List ℕ) (ys : Zones)
          → length rest < length bytes
          → Finished (load_loop h room fuel rest ys))
      → 0 < length bytes
      → Finished (on_scan h room (λ rest ys. load_loop h room fuel rest ys) bytes zs s)
  on_scan-Finished fuel bytes zs illegal e k p = tt
  on_scan-Finished fuel bytes zs unended e k p =
      unended_string-Finished (room zs.count) (skip_spaces bytes) zs
  on_scan-Finished fuel bytes zs (ended count skip) e k p =
      next_line-Finished (λ rest ys. load_loop h room fuel rest ys) (drop (count + skip) bytes)
        (add_line h (room zs.count) (take count bytes) zs)
        (λ ys.
          k (drop (count + skip) bytes) ys
            (omega (arith, length-drop (count + skip) bytes, skip_positive 0 bytes count skip e)))

  pub load_loop-Finished :
      (fuel : ℕ) (bytes : List ℕ) (zs : Zones)
      → length bytes ≤ fuel
      → Finished (load_loop h room fuel bytes zs)
  unfolding load_loop
  load_loop-Finished fuel [] zs k = tt
  load_loop-Finished zero (c ∷ cs) zs k = absurd (omega arith)
  load_loop-Finished (suc fuel) (c ∷ cs) zs k =
      on_scan-Finished fuel (c ∷ cs) zs (scan_line 0 (c ∷ cs)) refl
        (λ rest ys l. load_loop-Finished fuel rest ys (omega arith)) (omega arith)

  load_bytes-Finished :
      (malloc : Bool) (bytes : Option (List ℕ)) → Finished (load_bytes h malloc room bytes)
  load_bytes-Finished malloc none = tt
  load_bytes-Finished true (some bytes) =
      load_loop-Finished (length bytes) bytes (record { tree = leaf; count = 0 }) (omega arith)
  load_bytes-Finished false (some bytes) = tt

  -- Whatever the file, `ip_zones_load` has rounds enough.
  ip_zones_load-Finished : (malloc : Bool) (f : File) → Finished (ip_zones_load h malloc room f)
  unfolding ip_zones_load
  ip_zones_load-Finished malloc f = load_bytes-Finished malloc (read_ip_zones_from_file f)

  pub ip_zones_load-add_lines :
      (f : File) (lines : List (Bool × List ℕ)) (tail : List ℕ)
      → f.fopen ≡ true
      → f.malloc ≡ true
      → f.fread ≡ bytes_of lines tail
      → f.length_of ≡ pos (length (bytes_of lines tail))
      → 0 < length (bytes_of lines tail)
      → AreText lines
      → IsText tail
      → ip_zones_load h true room f
        ≡ add_lines h room lines tail (record { tree = leaf; count = 0 })
  unfolding ip_zones_load
  ip_zones_load-add_lines f lines tail opened memory bytes size some_byte t e =
      ap (load_bytes h true room)
        (read_file f (bytes_of lines tail) opened memory bytes size some_byte)
      ∙ load_loop-add_lines (length (bytes_of lines tail)) lines tail
          (record { tree = leaf; count = 0 }) (omega arith) t e
