-- ===== src/Property.antt =====
-- eproperty.c: the reading of a property file, line by line, with the functions of estring.c.
pub mod Item
pub mod Reading
pub mod Line
pub mod File
mod Tests
use libeasy.Prelude.{
  ℕ, zero, suc, ◌+◌, ◌-◌, Bool, true, false, Option, none, some, List, [], ◌∷◌, ◌++◌, ◌==◌,
  if◌then◌else◌, length, drop, set, replicate,
}
use libeasy.Prelude.Fault.{◌>>=◌}
use libeasy.Prelude.Int.{ℤ, pos, negsuc}
use libeasy.Strings.{
  is_blank, is_comment, delete_comment, leading, clear_trailing, text_of, char_at,
}

-- `buffer`, with a line in it.
abbrev pub buffer_length : ℕ
buffer_length = 2048

abbrev pub in_buffer : List ℕ → List ℕ
in_buffer line = line ++ replicate (buffer_length - length line) 0

-- `trim_str` of the text at place `p` of a buffer. Its second loop goes on in front of `p`.
unfoldable pub trim_at : (p : ℕ) → List ℕ → Option (ℕ × List ℕ)
trim_at p buffer =
    let text = text_of (drop p buffer) in
    clear_trailing (p + length text) buffer >>= λ buffer'. some (p + leading text, buffer')

-- `line + offset`, a fault in front of the buffer.
abbrev pub place_of : (line : ℕ) (offset : ℤ) → Option ℕ
place_of line (pos i) = some (line + i)
place_of zero (negsuc n) = none
place_of (suc line) (negsuc zero) = some line
place_of (suc line) (negsuc (suc n)) = place_of line (negsuc n)

-- From the first `trim_str` of the loop of `property_read` to its call of the function for items:
-- the key and the value.
unfoldable pub item_in : List ℕ → Option (List ℕ × List ℕ)
item_in buffer = trim_at 0 buffer >>= λ (line, b1).
    place_of line (char_at (some (text_of (drop line b1))) b'=') >>= λ at.
    trim_at (at + 1) (set b1 at 0) >>= λ (value, b2).
    trim_at line b2 >>= λ (key, b3). some (text_of (drop key b3), text_of (drop value b3))

abbrev pub without_comment : (comment_char : ℕ) → List ℕ → List ℕ
without_comment c line = elim (delete_comment (some line) c) [ none ↦ line | some bytes ↦ bytes ]

-- `property_set_comment_char` on the static variable, which `property_read` is given.
unfoldable pub property_set_comment_char : (c comment_char : ℕ) → ℕ
property_set_comment_char c comment_char = c

-- What the loop makes of a line: nothing, or an item.
unfoldable pub item_of : (comment_char : ℕ) → (line : List ℕ) → Option (Option (List ℕ × List ℕ))
item_of c line =
    if is_blank (some line)
    then some none
    else if c == 0
    then (item_in (in_buffer line) >>= λ item. some (some item))
    else if is_comment (some line) c
    then some none
    else item_in (in_buffer (without_comment c line)) >>= λ item. some (some item)

-- The loop of `property_read` over the lines that `fgets` gives, up to the end of the file; `process`
-- is the function for items, which answers whether to go on, and changes what it keeps.
module _ {ℓ} {A : Type ℓ} (process : (key value : List ℕ) → A → ℕ × A) where
  unfoldable pub read_lines : (comment_char : ℕ) → List (List ℕ) → (result : ℕ) → A → Option (ℕ × A)
  read_lines c [] result a = some (result, a)
  read_lines c (line ∷ lines) result a = item_of c line >>= λ item. elim item [
    | none ↦ read_lines c lines result a
    | some (key, value) ↦
        let answer = process key value a in
        let rest = read_lines c lines (answer.0) (answer.1) in
        if answer.0 == 0 then some answer else rest
  ]

  -- `property_read`; a name or a file that is not there is `none`.
  unfoldable pub property_read :
      (comment_char : ℕ) → (file : Option (List (List ℕ))) → A → Option (ℕ × A)
  property_read c none a = some (0, a)
  property_read c (some lines) a = read_lines c lines 0 a
