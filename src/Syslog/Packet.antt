-- ===== src/Syslog/Packet.antt =====
-- esyslog.c: what `syslog_write` puts into a datagram.
use libeasy.Prelude.{
  ℕ, zero, suc, ◌+◌, ◌-◌, ◌≤◌, ◌<◌, ◌≡◌, refl, sym, ap, ap₂, ◌∙◌, Bool, false, Option, none, some,
  List, [], ◌∷◌, ◌++◌, arith, ltb, length, length-append, length-take, take, Bool-cases, inl, inr,
  append_assoc,
}
use libeasy.Prelude.Fault.{◌>>=◌}
use libeasy.Prelude.Int.{pos}
use libeasy.Prelude.Slices.{append_≤, take-append, take_all}
use libeasy.Prelude.Text.{codes, decimal, length-decimal}
use libeasy.Syslog.{
  Syslog, Clock, month_name, name_field, optional_field, padded, two_digits, priority, pri_part,
  header_part, tag_part, print, head, with_message, send, write, buffer_size, max_level,
}

-- The two names fit into their fields of 32 bytes with the zero behind them.
pub record IsNamed (s : Syslog) : Type 0 where
  pub host_fits : length s.hostname ≤ 31
  pub program_fits : length s.program ≤ 31

pub length-name_field : (text : List ℕ) → length (name_field text) ≤ 31
length-name_field text = omega (arith, length-take 31 text)

pub length-optional_field : (text : Option (List ℕ)) → length (optional_field text) ≤ 31
length-optional_field none = omega arith
length-optional_field (some text) = length-name_field text

length-padded : (fill : ℕ) (ds : List ℕ) → length ds ≤ 20 → length (padded fill ds) ≤ 20
length-padded fill [] h = h
length-padded fill (d ∷ []) h = omega arith
length-padded fill (d ∷ e ∷ ds) h = h

length-two_digits : (n : ℕ) → length (two_digits n) ≤ 20
length-two_digits n = length-padded b'0' (decimal n) (length-decimal n)

length-priority : (f : Option ℕ) (level : ℕ) → length (priority f level) ≤ 20
length-priority none level = omega arith
length-priority (some f) level = length-decimal _

length-pri_part : (s : Syslog) (level : ℕ) → length (pri_part s level) ≤ 22
unfolding pri_part
length-pri_part s level =
    omega (
      arith,
      length-append (priority s.facility level) (codes ">"),
      length-priority s.facility level,
    )

length_or : Option (List ℕ) → ℕ
length_or none = 3
length_or (some text) = length text

length_or-month_name : (m : ℕ) → length_or (month_name m) ≡ 3
unfolding length_or
length_or-month_name zero = refl
length_or-month_name (suc zero) = refl
length_or-month_name (suc (suc zero)) = refl
length_or-month_name (suc (suc (suc zero))) = refl
length_or-month_name (suc (suc (suc (suc zero)))) = refl
length_or-month_name (suc (suc (suc (suc (suc zero))))) = refl
length_or-month_name (suc (suc (suc (suc (suc (suc zero)))))) = refl
length_or-month_name (suc (suc (suc (suc (suc (suc (suc zero))))))) = refl
length_or-month_name (suc (suc (suc (suc (suc (suc (suc (suc zero)))))))) = refl
length_or-month_name (suc (suc (suc (suc (suc (suc (suc (suc (suc zero))))))))) = refl
length_or-month_name (suc (suc (suc (suc (suc (suc (suc (suc (suc (suc zero)))))))))) = refl
length_or-month_name (suc (suc (suc (suc (suc (suc (suc (suc (suc (suc (suc zero))))))))))) = refl
length_or-month_name (suc (suc (suc (suc (suc (suc (suc (suc (suc (suc (suc (suc zero)))))))))))) =
    refl
length_or-month_name
      (suc (suc (suc (suc (suc (suc (suc (suc (suc (suc (suc (suc (suc n))))))))))))) =
    refl

-- Every month has a name of three letters.
length-month_name : (m : ℕ) (month : List ℕ) → month_name m ≡ some month → length month ≡ 3
unfolding length_or
length-month_name m month e = sym (ap length_or e) ∙ length_or-month_name m

module _ (s : Syslog) (named : IsNamed s) where
  length-header_part :
      (t : Clock) (month : List ℕ) → length month ≡ 3 → length (header_part s t month) ≤ 120
  unfolding header_part
  length-header_part t month h = append_≤ month _ 3 117 (omega arith) (
      append_≤ (codes " ") _ 1 116 (omega arith) (
        append_≤ _ _ 20 96 (length-padded b' ' (decimal t.mday) (length-decimal t.mday)) (
          append_≤ (codes " ") _ 1 95 (omega arith) (
            append_≤ _ _ 20 75 (length-two_digits t.hour) (
              append_≤ (codes ":") _ 1 74 (omega arith) (
                append_≤ _ _ 20 54 (length-two_digits t.min) (
                  append_≤ (codes ":") _ 1 53 (omega arith) (
                    append_≤ _ _ 20 33 (length-two_digits t.sec) (
                      append_≤ (codes " ") _ 1 32 (omega arith) (
                        append_≤ s.hostname (codes " ") 31 1 named.host_fits (omega arith)))))))))))

  length-tag_part : (pid : ℕ) → length (tag_part s pid) ≤ 55
  unfolding tag_part
  length-tag_part pid = append_≤ _ _ 31 24 named.program_fits (
      append_≤ (codes "[") _ 1 23 (omega arith)
        (append_≤ _ (codes "]: ") 20 3 (length-decimal pid) (omega arith)))

-- What fits before the last byte of the buffer is printed whole.
print_whole :
    (text buffer : List ℕ)
    → length buffer + length text < buffer_size
    → print text (buffer, length buffer) ≡ (buffer ++ text, length (buffer ++ text))
print_whole text buffer h =
    ap₂ (λ t n. (buffer ++ t, n)) (take_all (buffer_size - length buffer - 1) text (omega arith))
      (sym (length-append buffer text))

-- The message follows, up to the end of the buffer.
with_message_fills :
    (buffer msg : List ℕ)
    → length buffer < buffer_size
    → with_message (buffer, length buffer) msg ≡ take buffer_size (buffer ++ msg)
unfolding with_message
with_message_fills buffer msg h =
    elim (Bool-cases (ltb (length msg) (buffer_size - length buffer))) [
      | inl fits ↦
          rw (fits)
            (sym (take_all buffer_size (buffer ++ msg) (ground (arith, length-append buffer msg))))
      | inr long ↦
          rw (long)
            (sym (take-append buffer msg buffer_size (buffer_size - length buffer) (omega arith)))
    ]

-- The text of a message in the legacy format:
-- `<priority>timestamp hostname program[pid]: message`.
unfoldable pub packet : Syslog → Clock → (pid level : ℕ) (month msg : List ℕ) → List ℕ
packet s t pid level month msg =
    pri_part s level ++ (header_part s t month ++ (tag_part s pid ++ msg))

module _ (s : Syslog) (named : IsNamed s) (t : Clock) (pid level : ℕ) (month : List ℕ) where
  head_whole :
      length month ≡ 3
      → head s t pid level month ≡ (
        (pri_part s level ++ header_part s t month) ++ tag_part s pid,
        length ((pri_part s level ++ header_part s t month) ++ tag_part s pid),
      )
  unfolding head
  head_whole h =
      let p = length-pri_part s level in
      let q = length-header_part s named t month h in
      let r = length-tag_part s named pid in
      let pq = length-append (pri_part s level) (header_part s t month) in
      ap (λ p. print (tag_part s pid) (print (header_part s t month) p))
        (print_whole (pri_part s level) [] (omega arith))
      ∙ ap (λ p. print (tag_part s pid) p)
          (print_whole (header_part s t month) (pri_part s level) (omega arith))
      ∙ print_whole (tag_part s pid) (pri_part s level ++ header_part s t month) (omega arith)

  length-head :
      length month ≡ 3
      → length ((pri_part s level ++ header_part s t month) ++ tag_part s pid) ≤ 197
  length-head h =
      append_≤ (pri_part s level ++ header_part s t month) (tag_part s pid) 142 55
        (append_≤ (pri_part s level) (header_part s t month) 22 120 (length-pri_part s level)
          (length-header_part s named t month h))
        (length-tag_part s named pid)

  with_message-head :
      length month ≡ 3
      → (msg : List ℕ)
      → with_message (head s t pid level month) msg
        ≡ take buffer_size (packet s t pid level month msg)
  unfolding packet
  with_message-head h msg =
      let l = length-head h in
      ap (λ p. with_message p msg) (head_whole h)
      ∙ with_message_fills ((pri_part s level ++ header_part s t month) ++ tag_part s pid) msg
          (omega arith)
      ∙ ap (λ d. take buffer_size d)
          (append_assoc (pri_part s level ++ header_part s t month) (tag_part s pid) msg
            ∙ append_assoc (pri_part s level) (header_part s t month) (tag_part s pid ++ msg))

  length-packet :
      length month ≡ 3
      → (msg : List ℕ) → length msg ≤ 827
      → length (packet s t pid level month msg) ≤ buffer_size
  unfolding packet
  length-packet h msg small = append_≤ (pri_part s level) _ 22 1002 (length-pri_part s level) (
      append_≤ (header_part s t month) _ 120 882 (length-header_part s named t month h)
        (append_≤ (tag_part s pid) msg 55 827 (length-tag_part s named pid) small))

-- An open logger sends a message of a level in range.
pub write-send :
    (sent : Bool) (t : Clock) (pid : ℕ) (s : Syslog) (level : ℕ) (msg : List ℕ) (fd : ℕ)
    → s.sock_fd ≡ some fd
    → level ≤ max_level
    → write sent t pid s (pos level) msg ≡ send sent t pid s level msg
unfolding write
write-send sent t pid s level msg fd socket h =
    let small : ltb max_level level ≡ false = ground arith in rw (small, socket) refl

-- An open logger with names that fit their fields sends one datagram for a message of a level in
-- range, in any month but the first: the text `<priority>timestamp hostname program[pid]: message`,
-- cut off after 1024 bytes, where the month in the timestamp is the one that the code takes, the month
-- before. The answer is that of `sendto`.
pub write-packet :
    (sent : Bool) (t : Clock) (pid : ℕ) (s : Syslog) (level : ℕ) (msg month : List ℕ) (fd : ℕ)
    → IsNamed s
    → s.sock_fd ≡ some fd
    → level ≤ max_level
    → month_name t.mon ≡ some month
    → write sent t pid s (pos level) msg
      ≡ some (sent, take buffer_size (packet s t pid level month msg) ∷ [])
unfolding send
write-packet sent t pid s level msg month fd named socket h e =
    write-send sent t pid s level msg fd socket h
    ∙ ap (λ m. m >>= λ month. some (sent, with_message (head s t pid level month) msg ∷ [])) e
    ∙ ap (λ d. some (sent, d ∷ []))
        (with_message-head s named t pid level month (length-month_name t.mon month e) msg)

-- No part of the text is lost where the message has at most 827 bytes.
pub write_whole :
    (sent : Bool) (t : Clock) (pid : ℕ) (s : Syslog) (level : ℕ) (msg month : List ℕ) (fd : ℕ)
    → IsNamed s
    → s.sock_fd ≡ some fd
    → level ≤ max_level
    → month_name t.mon ≡ some month
    → length msg ≤ 827
    → write sent t pid s (pos level) msg ≡ some (sent, packet s t pid level month msg ∷ [])
write_whole sent t pid s level msg month fd named socket h e small =
    write-packet sent t pid s level msg month fd named socket h e
    ∙ ap (λ d. some (sent, d ∷ []))
        (take_all buffer_size (packet s t pid level month msg)
          (length-packet s named t pid level month (length-month_name t.mon month e) msg small))
