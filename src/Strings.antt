-- ===== src/Strings.antt =====
-- estring.c: blanks, comments, splitting and comparison of texts. A C string is the list of its bytes
-- before the zero; NULL is `none`.
pub mod Trailing
pub mod Trim
pub mod Comment
pub mod Url
pub mod Order
mod Tests
use libeasy.Prelude.{
  ℕ, zero, suc, ◌+◌, ◌-◌, Bool, true, false, Option, none, some, List, [], ◌∷◌, ◌++◌, map, ltb, leb,
  ◌==◌, ◌||◌, min, if◌then◌else◌, length, take, drop, set, get_elem?,
}
use libeasy.Prelude.Fault.{◌>>=◌}
use libeasy.Prelude.Int.{ℤ, pos, negsuc}

-- A space or a tab.
abbrev pub is_space : ℕ → Bool
is_space b = b == b' ' || b == b'\t'

abbrev pub is_white : ℕ → Bool
is_white b = b == b' ' || b == b'\t' || b == b'\r' || b == b'\n'

-- The loop of `is_comment`
unfoldable pub comment_from : List ℕ → (comment_char : ℕ) → Bool
comment_from [] c = false
comment_from (b ∷ text) c = let rest = comment_from text c in if is_space b then rest else b == c

abbrev pub is_comment : Option (List ℕ) → (comment_char : ℕ) → Bool
is_comment none c = false
is_comment (some text) c = comment_from text c

-- The loop of `is_blank`
unfoldable pub all_white : List ℕ → Bool
all_white [] = true
all_white (b ∷ text) = let rest = all_white text in if is_white b then rest else false

abbrev pub is_blank : Option (List ℕ) → Bool
is_blank none = true
is_blank (some text) = all_white text

-- The first loop of `trim_str`: how far `res` comes.
unfoldable pub leading : List ℕ → ℕ
leading [] = 0
leading (b ∷ text) = let rest = leading text in if is_space b then rest + 1 else 0

-- The second loop of `trim_str`, with `str` at the byte before place `left`; before the first byte
-- it reads out of the string.
unfoldable pub clear_trailing : (left : ℕ) → List ℕ → Option (List ℕ)
clear_trailing zero bytes = none
clear_trailing (suc i) bytes = get_elem? bytes i >>= λ b.
    let rest = clear_trailing i (set bytes i 0) in if is_white b then rest else some bytes

-- `trim_str`: the place that it returns, and the bytes of the string, which it writes to.
unfoldable pub trim_str : Option (List ℕ) → Option (Option (ℕ × List ℕ))
trim_str none = some none
trim_str (some text) =
    clear_trailing (length text) text >>= λ bytes. some (some (leading text, bytes))

-- The text that a pointer to these bytes is, a zero behind them understood.
unfoldable pub text_of : List ℕ → List ℕ
text_of [] = []
text_of (b ∷ bytes) = let rest = text_of bytes in if b == 0 then [] else b ∷ rest

-- `delete_comment`: the bytes that it leaves. The loop goes on behind a byte that it cleared.
unfoldable pub delete_comment : Option (List ℕ) → (comment_char : ℕ) → Option (List ℕ)
delete_comment none c = none
delete_comment (some text) c = some (map (λ b. if b == c then 0 else b) text)

-- The loop of `char_at`, from the byte with index `i` on.
unfoldable pub char_from : (i : ℕ) → List ℕ → (c : ℕ) → ℤ
char_from i [] c = negsuc 0
char_from i (b ∷ text) c = let rest = char_from (i + 1) text c in if b == c then pos i else rest

abbrev pub char_at : Option (List ℕ) → (c : ℕ) → ℤ
char_at none c = negsuc 0
char_at (some text) c = char_from 0 text c

abbrev pub slash : ℕ
slash = b'/'

-- The loop of `split_url`: the index of the last slash before place `left`.
unfoldable pub last_slash : (left : ℕ) → List ℕ → Option ℕ
last_slash zero url = none
last_slash (suc i) url =
    get_elem? url i >>= λ b. let rest = last_slash i url in if b == slash then some i else rest

-- What is copied into `path` and `name`, which were cleared.
abbrev pub Parts : Type 0
Parts = List ℕ × List ℕ

abbrev pub split_at : (path_size name_size : ℕ) (url : List ℕ) → Option ℕ → Parts
split_at path_size name_size url none = ([], take (name_size - 1) url)
split_at path_size name_size url (some i) = (
  take (if ltb (path_size - 1) (i + 1) then path_size - 1 else i + 1) url,
  (let rest = length url - (i + 1) in
      take (if ltb (name_size - 1) rest then name_size - 1 else rest) (drop (i + 1) url)),
)

abbrev pub ends_with_slash : List ℕ → Bool
ends_with_slash [] = false
ends_with_slash (b ∷ []) = b == slash
ends_with_slash (b ∷ c ∷ text) = ends_with_slash (c ∷ text)

-- The part of `split_url` behind the tests of the sizes.
unfoldable pub split_text : (path_size name_size : ℕ) → List ℕ → Parts
split_text path_size name_size [] = ([], [])
split_text path_size name_size (b ∷ url) =
    if ends_with_slash (b ∷ url)
    then (take (path_size - 1) (b ∷ url), [])
    else split_at path_size name_size (b ∷ url) (last_slash (length (b ∷ url)) (b ∷ url))

-- `split_url`. A negative size is a huge one for `bzero`, which is a fault.
unfoldable pub split_url : Option (List ℕ) → (path_size name_size : ℤ) → Option Parts
split_url url (negsuc n) name_size = none
split_url url (pos m) (negsuc n) = none
split_url none (pos m) (pos n) = some ([], [])
split_url (some url) (pos m) (pos n) =
    if m == 0 || n == 0 then some ([], []) else some (split_text m n url)

-- `memcmp`
abbrev pub memcmp : (n : ℕ) → List ℕ → List ℕ → ℤ
memcmp zero xs ys = pos 0
memcmp (suc n) [] ys = pos 0
memcmp (suc n) (x ∷ xs) [] = pos 0
memcmp (suc n) (x ∷ xs) (y ∷ ys) =
    let rest = memcmp n xs ys in if ltb x y then negsuc 0 else if ltb y x then pos 1 else rest

-- The order of two texts of these sizes whose common part compares as `result`.
abbrev pub by_size : (result : ℤ) (size1 size2 : ℕ) → ℤ
by_size (negsuc n) size1 size2 = negsuc 0
by_size (pos (suc n)) size1 size2 = pos 1
by_size (pos zero) size1 size2 =
    if size1 == size2 then pos 0 else if ltb size2 size1 then pos 1 else negsuc 0

-- `str_cmp` of two texts, with their lengths for the sizes.
unfoldable pub str_cmp : List ℕ → List ℕ → ℤ
str_cmp xs ys =
    by_size (memcmp (if ltb (length xs) (length ys) then length xs else length ys) xs ys)
      (length xs) (length ys)
