-- ===== src/Property/Tests.antt =====
-- eproperty.c: runs, and the theorems at concrete inputs.
use libeasy.Prelude.{ℕ, ◌+◌, ◌≡◌, refl, none, some, List, [], ◌∷◌, ◌++◌, arith}
use libeasy.Prelude.Text.{codes}
use libeasy.Strings.{
  all_white, leading, clear_trailing, text_of, char_from, comment_from, delete_comment,
}
use libeasy.Prelude.Fault.{Returns}
use libeasy.Strings.Trailing.{strip_start, strip_end}
use libeasy.Property.{trim_at, item_in, item_of, property_read}
use libeasy.Property.Item.{is_free}
use libeasy.Property.Line.{item_of-strip}
use libeasy.Property.File.{done, skipped, read, Calls, property_read-Calls}

-- A function that counts the items and goes on.
abbrev counting : (key value : List ℕ) → ℕ → ℕ × ℕ
counting key value n = (1, n + 1)

abbrev port_line : List ℕ
port_line = codes " port " ++ b'=' ∷ codes " 80 "

comment_test : item_of b'#' (codes "# nothing") ≡ some none
unfolding item_of all_white comment_from
comment_test = refl

-- A comment behind an item.
item_test : item_of b'#' (codes "port = 80 # web") ≡ some (some (codes "port", codes "80"))
unfolding item_of item_in trim_at all_white comment_from leading clear_trailing text_of char_from
    delete_comment
item_test = refl

port_item : item_of b'#' port_line ≡ some (some (codes "port", codes "80"))
unfolding item_of item_in trim_at all_white comment_from leading clear_trailing text_of char_from
    delete_comment
port_item = refl

item_of-strip_example :
    item_of b'#' port_line
    ≡ some (some (strip_end (strip_start (codes " port ")), strip_start (strip_end (codes " 80 "))))
unfolding all_white is_free
item_of-strip_example =
    item_of-strip b'#' (codes " port ") (codes " 80 ") (λ e. absurd (omega arith))
      (λ e. absurd (omega arith)) refl refl refl refl refl refl

property_read-Calls_example :
    Returns
      (property_read counting b'#' (some (codes "# nothing" ∷ port_line ∷ [])) 0)
      (Calls counting ((codes "port", codes "80") ∷ []) (0, 0))
property_read-Calls_example =
    property_read-Calls counting b'#' (codes "# nothing" ∷ port_line ∷ [])
      ((codes "port", codes "80") ∷ []) 0
      (skipped (codes "# nothing") (port_line ∷ []) ((codes "port", codes "80") ∷ []) comment_test
        (read port_line [] (codes "port") (codes "80") [] port_item done))
