-- ===== src/Property/Line.antt =====
-- eproperty.c: what the loop of `property_read` makes of a line.
use libeasy.Prelude.{
  ℕ, ◌+◌, ◌-◌, ◌≡◌, ◌≢◌, refl, ap, ◌∙◌, true, false, none, some, List, [], ◌∷◌, ◌++◌, arith, ◌==◌,
  length, replicate,
}
use libeasy.Prelude.Fault.{◌>>=◌}
use libeasy.Prelude.Int.{negsuc}
use libeasy.Strings.{all_white, leading, text_of, delete_comment, char_at}
use libeasy.Strings.Trailing.{strip_start, strip_end}
use libeasy.Property.{trim_at, item_in, item_of, in_buffer, without_comment, buffer_length}
use libeasy.Property.Item.{
  is_free, is_free-append, is_free_cons, is_free-strip_end, text_of-replicate, all_white-append,
  all_white_dark, trim_at-text, char_from_free, comment_from_free, map_free,
}
use libeasy.Property.Reading.{item_in-strip, replicate-append}

without_comment_free :
    (c : ℕ) (line : List ℕ) → is_free c line ≡ true → without_comment c line ≡ line
unfolding delete_comment
without_comment_free c line h = map_free c line h

-- A line that is not blank and has no comment character goes into the buffer as it is.
item_of-item_in :
    (c : ℕ) (line : List ℕ)
    → c ≢ 0
    → all_white line ≡ false
    → is_free c line ≡ true
    → item_of c line ≡ (item_in (in_buffer line) >>= λ item. some (some item))
unfolding item_of
item_of-item_in c line n w h =
    let marked : (c == 0) ≡ false = ground arith in
    rw (w, marked, comment_from_free c line h)
      (ap (λ t. item_in (in_buffer t) >>= λ item. some (some item)) (without_comment_free c line h))

-- A line `key = value` without the comment character, and without a zero, gives the key without the
-- blanks around it and the value without those around it, where the key is not blank and has no
-- equals sign.
pub item_of-strip :
    (c : ℕ) (key value : List ℕ)
    → c ≢ 0
    → c ≢ b'='
    → all_white key ≡ false
    → is_free 0 key ≡ true
    → is_free b'=' key ≡ true
    → is_free c key ≡ true
    → is_free 0 value ≡ true
    → is_free c value ≡ true
    → item_of c (key ++ b'=' ∷ value)
      ≡ some (some (strip_end (strip_start key), strip_start (strip_end value)))
item_of-strip c key value n q filled f e m g l =
    let line = key ++ b'=' ∷ value in
    let other : (b'=' == c) ≡ false = ground arith in
    item_of-item_in c line n (all_white-append key (b'=' ∷ value) (all_white_dark b'=' value refl))
      (is_free-append c key (b'=' ∷ value) m (is_free_cons c b'=' value other l))
    ∙ ap (λ r. r >>= λ item. some (some item))
        (item_in-strip key value (buffer_length - length line) filled f e g)

-- A line without an equals sign, which is not blank, starts with no blank and has no comment
-- character and no zero, has the loop write in front of the buffer.
pub item_of_missing :
    (c : ℕ) (line : List ℕ)
    → c ≢ 0
    → all_white line ≡ false
    → leading line ≡ 0
    → is_free 0 line ≡ true
    → is_free c line ≡ true
    → is_free b'=' line ≡ true
    → item_of c line ≡ none
unfolding item_in
item_of_missing c line n w start f m e =
    let k = buffer_length - length line in
    let d = length line - length (strip_end line) in
    let at : 0 + leading line ≡ 0 = omega arith in
    let trimmed : trim_at 0 (line ++ replicate k 0)
        ≡ some (0, strip_end line ++ replicate (d + k) 0) =
      trim_at-text [] line (replicate k 0) (text_of-replicate line k f) w refl
      ∙ ap (λ p. some (p, strip_end line ++ (replicate d 0 ++ replicate k 0))) at
      ∙ ap (λ t. some (0, strip_end line ++ t)) (replicate-append d k) in
    let no_sign : char_at (some (text_of (strip_end line ++ replicate (d + k) 0))) b'=' ≡ negsuc 0 =
      ap (λ t. char_at (some t) b'=')
        (text_of-replicate (strip_end line) (d + k) (is_free-strip_end 0 line f))
      ∙ char_from_free 0 b'=' (strip_end line) (is_free-strip_end b'=' line e) in
    item_of-item_in c line n w m ∙ rw (trimmed, no_sign) refl
