-- ===== src/IpZone/Load.antt =====
-- ip_zone/ip_zone.c: reading a file of zones (`ip_zones_load`, `read_ip_zones_from_file`).
use libeasy.Prelude.{
  ℕ, zero, suc, ◌+◌, Bool, true, false, not, ◌&&◌, ◌||◌, Option, none, some, List, [], ◌∷◌, ◌==◌,
  if◌then◌else◌, length, take, drop,
}
use libeasy.Prelude.Fault.{◌>>=◌}
use libeasy.Prelude.Int.{ℤ, pos, ltb_ℤ, pos_part}
use libeasy.Prelude.Maps.{has}
use libeasy.IpZone.{Zones, Host, leaf, find_mark, ip_zones_add}

-- What the system answers to `read_ip_zones_from_file`: the length of the file, whether it was opened
-- and whether there is memory, and the bytes that were read.
pub record File : Type 0 where
  pub length_of : ℤ
  pub fopen : Bool
  pub malloc : Bool
  pub fread : List ℕ

unfoldable pub read_ip_zones_from_file : File → Option (List ℕ)
read_ip_zones_from_file f =
    if ltb_ℤ (pos 0) f.length_of
    then (if f.fopen
        then (if f.malloc
            then (if (length f.fread == 0) || not (length f.fread == pos_part f.length_of)
                then none
                else some f.fread)
            else none)
        else none)
    else none

-- Where a line ends: after how many bytes, and how many the end has.
pub data Scan : Type 0 where
  illegal : Scan
  ended : (count skip : ℕ) → Scan
  unended : Scan

-- The loop that looks for the end of a line, `count` bytes behind its start.
unfoldable pub scan_line : (count : ℕ) → List ℕ → Scan
scan_line count [] = unended
scan_line count (c ∷ []) = if c == 13 then illegal else if c == 10 then ended count 1 else unended
scan_line count (c ∷ d ∷ cs) =
    let more = scan_line (suc count) (d ∷ cs) in
    if c == 13
    then if d == 10 then ended count 2 else illegal
    else if c == 10
    then ended count 1
    else more

-- The bytes before the first zero.
abbrev pub c_string : List ℕ → List ℕ
c_string [] = []
c_string (c ∷ cs) = if c == 0 then [] else c ∷ c_string cs

abbrev pub skip_spaces : List ℕ → List ℕ
skip_spaces [] = []
skip_spaces (c ∷ cs) = if c == b' ' then skip_spaces cs else c ∷ cs

-- What becomes of a line without its first spaces.
abbrev pub add_string : Host → (malloc : Bool) → List ℕ → Zones → Option (Bool × Zones)
add_string h malloc [] zs = some (true, zs)
add_string h malloc (c ∷ cs) zs =
    if c == b'#' then some (true, zs) else ip_zones_add h malloc (c ∷ cs) zs

unfoldable pub add_line : Host → (malloc : Bool) → List ℕ → Zones → Option (Bool × Zones)
add_line h malloc line zs = add_string h malloc (skip_spaces (c_string line)) zs

-- `loaded` and `refused` are what `ip_zones_load` returns, the latter NULL. `stuck` is that it reads
-- the same line again without end, `unfinished` that the rounds given were too few.
pub data Loaded : Type 0 where
  loaded : Zones → Loaded
  refused : Loaded
  stuck : Loaded
  unfinished : Loaded

-- Whether what `ip_zones_add` reads of a line without an end lies in the buffer: up to a zero, or to a
-- space behind the name of a zone.
abbrev pub spaced : Option (List ℕ × List ℕ) → Bool
spaced none = false
spaced (some (subnet, name)) = has b' ' name

abbrev pub bounded : List ℕ → Bool
bounded cs = has 0 cs || spaced (find_mark cs)

-- A last line without an end is read again and again, since the index is not moved. Once it was added
-- it ends at its first slash, and is refused, or is blank if it begins with the slash.
abbrev pub read_again : (first : ℕ) → Bool × Zones → Option Loaded
read_again first (ok, zs) = if ok && (first == b'/') then some stuck else some refused

unfoldable pub unended_string : Host → (malloc : Bool) → List ℕ → Zones → Option Loaded
unended_string h malloc [] zs = none
unended_string h malloc (c ∷ cs) zs =
    if (c == 0) || (c == b'#')
    then some stuck
    else (if malloc
        then (if bounded (c ∷ cs)
            then (ip_zones_add h true (c_string (c ∷ cs)) zs >>= read_again c)
            else none)
        else some refused)

abbrev pub next_line : (List ℕ → Zones → Option Loaded) → List ℕ → (Bool × Zones) → Option Loaded
next_line more rest (ok, zs) = if ok then more rest zs else some refused

-- `room` says for the n-th zone whether there is memory for it.
abbrev pub on_scan :
    Host
    → (room : ℕ → Bool) → (List ℕ → Zones → Option Loaded)
    → List ℕ
    → Zones
    → Scan
    → Option Loaded
on_scan h room more rest zs illegal = some refused
on_scan h room more rest zs unended = unended_string h (room zs.count) (skip_spaces rest) zs
on_scan h room more rest zs (ended count skip) =
    add_line h (room zs.count) (take count rest) zs >>= next_line more (drop (count + skip) rest)

-- The loop of `ip_zones_load` over what is left of the buffer.
unfoldable pub load_loop : Host → (room : ℕ → Bool) → (fuel : ℕ) → List ℕ → Zones → Option Loaded
load_loop h room fuel [] zs = some (loaded zs)
load_loop h room zero (c ∷ cs) zs = some unfinished
load_loop h room (suc fuel) (c ∷ cs) zs =
    on_scan h room (λ rest ys. load_loop h room fuel rest ys) (c ∷ cs) zs (scan_line 0 (c ∷ cs))

abbrev pub load_bytes : Host → (malloc : Bool) → (room : ℕ → Bool) → Option (List ℕ) → Option Loaded
load_bytes h malloc room none = some refused
load_bytes h malloc room (some bytes) =
    if malloc
    then load_loop h room (length bytes) bytes (record { tree = leaf; count = 0 })
    else some refused

-- `ip_zones_load`; each line has at least the byte that ends it, so that as many rounds as bytes are
-- enough.
unfoldable pub ip_zones_load : Host → (malloc : Bool) → (room : ℕ → Bool) → File → Option Loaded
ip_zones_load h malloc room f = load_bytes h malloc room (read_ip_zones_from_file f)
