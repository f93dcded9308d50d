-- ===== src/Strings/Tests.antt =====
-- estring.c: runs, and the theorems at concrete inputs.
use libeasy.Prelude.{
  ℕ, ◌≡◌, refl, true, false, none, some, List, [], ◌∷◌, ◌++◌, length, drop, take, replicate, ◌-◌,
}
use libeasy.Prelude.Int.{pos, negsuc}
use libeasy.Prelude.Text.{codes}
use libeasy.Strings.{
  is_comment, comment_from, all_white, leading, clear_trailing, trim_str, split_url, split_text,
  last_slash,
}
use libeasy.Strings.Trailing.{strip_start, strip_end}
use libeasy.Strings.Trim.{trim_str-Stripped}
use libeasy.Strings.Url.{IsSplit, split_url-IsSplit}

abbrev padded_text : List ℕ
padded_text = codes "  a b \t"

trim_test : trim_str (some padded_text) ≡ some (some (2, codes "  a b" ++ 0 ∷ 0 ∷ []))
unfolding trim_str clear_trailing leading
trim_test = refl

comment_test : is_comment (some (codes " # x")) b'#' ≡ true
unfolding comment_from
comment_test = refl

no_comment_test : is_comment (some (codes "x # y")) b'#' ≡ false
unfolding comment_from
no_comment_test = refl

split_test :
    split_url (some (codes "/usr/lib/easy.so")) (pos 32) (pos 5)
    ≡ some (codes "/usr/lib/", codes "easy")
unfolding split_url split_text last_slash
split_test = refl

split_negative_test : split_url none (negsuc 0) (pos 5) ≡ none
unfolding split_url
split_negative_test = refl

trim_str-Stripped_example :
    (bytes : List ℕ) × (trim_str (some padded_text) ≡ some (some (leading padded_text, bytes)))
    × (drop (leading padded_text) bytes
        ≡ strip_end (strip_start padded_text)
          ++ replicate (length padded_text - length (strip_end padded_text)) 0)
unfolding all_white
trim_str-Stripped_example = trim_str-Stripped padded_text refl

split_url-IsSplit_example :
    (path : List ℕ) × (name : List ℕ) × IsSplit (codes "/usr/lib/easy.so") path name
    × (split_url (some (codes "/usr/lib/easy.so")) (pos 32) (pos 5)
        ≡ some (take 31 path, take 4 name))
split_url-IsSplit_example = split_url-IsSplit 31 4 (codes "/usr/lib/easy.so")
