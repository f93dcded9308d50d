-- ===== src/Log.antt =====
-- elog.c: lines with a level and a time, to the console, a file or syslog.
pub mod Line
pub mod Levels
pub mod Output
pub mod Plain
pub mod Remote
pub mod Files
mod Tests
use libeasy.Prelude.{
  ℕ, zero, suc, ◌+◌, ◌-◌, Bool, true, false, Option, none, some, List, [], ◌∷◌, ◌++◌, map, ltb, leb,
  ◌==◌, ◌&&◌, ◌||◌, if◌then◌else◌, length, take, replicate, set, get_elem?,
}
use libeasy.Prelude.Fault.{◌>>=◌}
use libeasy.Prelude.Int.{ℤ, pos, negsuc, ltb_ℤ}
use libeasy.Prelude.Text.{codes}
use libeasy.Syslog.{Syslog, Clock, open_syslog, write, close}

pub data Destination : Type 0 where
  console : Destination
  file : Destination
  syslog : Destination

-- The static variables, with those of esyslog.c.
pub record Log : Type 0 where
  pub level : ℤ
  pub fd : ℕ
  pub dst : Destination
  pub sys : Syslog

abbrev pub stdout : ℕ
stdout = 1

-- What a call does outside: bytes that `write` is given, a datagram for `sendto`, a descriptor that
-- `close` is given.
pub data Event : Type 0 where
  wrote : (fd : ℕ) (bytes : List ℕ) → Event
  sent : (datagram : List ℕ) → Event
  closed : (fd : ℕ) → Event

-- `log_level_map`
abbrev pub log_level_map : List (List ℕ)
log_level_map = codes "DEBUG" ∷ codes "INFO" ∷ codes "WARN" ∷ codes "ERROR" ∷ []

-- `syslog_level_map`
abbrev pub syslog_level_map : List ℕ
syslog_level_map = 7 ∷ 6 ∷ 4 ∷ 3 ∷ []

abbrev pub max_log_level : ℕ
max_log_level = 3

-- `map[level]`, a fault out of bounds.
abbrev pub at_level {ℓ} : {A : Type ℓ} → List A → ℤ → Option A
at_level xs (pos n) = get_elem? xs n
at_level xs (negsuc n) = none

-- What a call meets: `expand` prints its arguments into a format, as `vsnprintf` does, where `none`
-- is a negative answer; `now` is the time as `format_cur_time` prints it; `clock`, `pid` and `sends`
-- are for `syslog_write`.
pub record Call : Type 0 where
  pub expand : List ℕ → Option (List ℕ)
  pub now : List ℕ
  pub clock : Clock
  pub pid : ℕ
  pub sends : Bool

-- `snprintf(format_buffer, sizeof(format_buffer) - 1, "[%s] [%s] %s", …)`
abbrev pub format_buffer : (name now fmt : List ℕ) → List ℕ
format_buffer name now fmt =
    take 1022 (codes "[" ++ (name ++ (codes "] [" ++ (now ++ (codes "] " ++ fmt)))))

-- `vsnprintf` into a buffer of `size` zeros, of which it may use all but the last two; the size is
-- cut to that, the newline is set at the size, and so many bytes and one are given out.
unfoldable pub line_in : (size : ℕ) → List ℕ → List ℕ
line_in size text =
    let printed = take (size - 3) text in
    let line_buffer = printed ++ replicate (size - length printed) 0 in
    let line_size = if ltb (size - 2) (length text) then size - 2 else length text in
    take (line_size + 1) (set line_buffer line_size b'\n')

abbrev pub line_buffer_size : ℕ
line_buffer_size = 8096

unfoldable pub line : List ℕ → List ℕ
line text = line_in line_buffer_size text

-- `line_size <= 0`
abbrev pub nothing_printed : Option (List ℕ) → Bool
nothing_printed none = true
nothing_printed (some []) = true
nothing_printed (some (c ∷ cs)) = false

abbrev pub printed_text : Option (List ℕ) → List ℕ
printed_text none = []
printed_text (some text) = text

-- What a call answers, 1 or 0, and what it did; `none` is a fault.
abbrev pub Answer : Type 0
Answer = Option (ℕ × List Event)

-- The branch for the console and for files.
unfoldable pub to_fd : Call → Log → (level : ℤ) (fmt : List ℕ) → Answer
to_fd c l level fmt = at_level log_level_map level >>= λ name.
    let text = c.expand (format_buffer name c.now fmt) in
    if nothing_printed text
    then some (0, [])
    else some (1, wrote l.fd (line (printed_text text)) ∷ [])

abbrev pub answer_of : Bool × List (List ℕ) → ℕ × List Event
answer_of (true, datagrams) = (1, map sent datagrams)
answer_of (false, datagrams) = (0, map sent datagrams)

-- The branch for syslog.
unfoldable pub to_syslog : Call → Log → (level : ℤ) (fmt : List ℕ) → Answer
to_syslog c l level fmt =
    let text = c.expand fmt in
    if nothing_printed text
    then some (0, [])
    else (at_level syslog_level_map level >>= λ priority.
        write c.sends c.clock c.pid l.sys (pos priority) (line (printed_text text)) >>= λ answer.
        some (answer_of answer))

abbrev pub clamped : ℤ → ℤ
clamped level = if ltb_ℤ (pos max_log_level) level then pos max_log_level else level

abbrev pub to_destination : Destination → Call → Log → (level : ℤ) (fmt : List ℕ) → Answer
to_destination console c l level fmt = to_fd c l level fmt
to_destination file c l level fmt = to_fd c l level fmt
to_destination syslog c l level fmt = to_syslog c l level fmt

-- `log_by_level`
unfoldable pub log_by_level : Call → Log → (level : ℤ) (fmt : List ℕ) → Answer
log_by_level c l level fmt =
    if ltb_ℤ level l.level then some (1, []) else to_destination l.dst c l (clamped level) fmt

-- These four have the body of `log_by_level`, with the level a constant.
unfoldable pub log_debug : Call → Log → List ℕ → Answer
log_debug c l fmt = log_by_level c l (pos 0) fmt

unfoldable pub log_info : Call → Log → List ℕ → Answer
log_info c l fmt = log_by_level c l (pos 1) fmt

unfoldable pub log_warn : Call → Log → List ℕ → Answer
log_warn c l fmt = log_by_level c l (pos 2) fmt

unfoldable pub log_error : Call → Log → List ℕ → Answer
log_error c l fmt = log_by_level c l (pos 3) fmt

abbrev pub illegal_level : List ℕ
illegal_level = codes "log_level should be 0, 1, 2, 3, %d is illegal" ++ b'\n' ∷ []

-- `log_level_str`: the name, `none` for NULL, and what was logged.
unfoldable pub log_level_str : Call → Log → ℤ → Option (Option (List ℕ) × List Event)
log_level_str c l level =
    if ltb_ℤ level (pos 0) || ltb_ℤ (pos 3) level
    then (log_error c l illegal_level >>= λ answer. some (none, answer.1))
    else (at_level log_level_map level >>= λ name. some (some name, []))

-- `strcasecmp` answers 0
abbrev pub lower_case : ℕ → ℕ
lower_case c = if leb b'A' c && leb c b'Z' then c + 32 else c

abbrev pub same_text : List ℕ → List ℕ → Bool
same_text [] [] = true
same_text [] (y ∷ ys) = false
same_text (x ∷ xs) [] = false
same_text (x ∷ xs) (y ∷ ys) = (lower_case x == lower_case y) && same_text xs ys

unfoldable pub log_level_int : List ℕ → ℤ
log_level_int level_str =
    if same_text level_str (codes "debug")
    then pos 0
    else if same_text level_str (codes "info")
    then pos 1
    else if same_text level_str (codes "warn")
    then pos 2
    else if same_text level_str (codes "error")
    then pos 3
    else negsuc 0

-- `log_set_file`; `opened` is the answer of `open`, `none` for -1.
unfoldable pub log_set_file : (opened : Option ℕ) → Log → ℕ × (List Event × Log)
log_set_file opened l =
    let events = if l.fd == stdout then [] else closed l.fd ∷ [] in
    elim opened [
      | none ↦ (0, (events, l))
      | some fd ↦ (1, (events, record l { dst = file; fd = fd }))
    ]

abbrev pub switched : ℤ × Syslog → Log → ℤ × Log
switched (pos zero, s) l = (pos 0, record l { sys = s })
switched (pos (suc n), s) l = (pos (suc n), record l { dst = syslog; sys = s })
switched (negsuc n, s) l = (negsuc n, record l { dst = syslog; sys = s })

-- `log_set_syslog`
unfoldable pub log_set_syslog :
    (aton : Bool) (socket : Option ℕ)
    → Log
    → (ip : Option (List ℕ)) (port : ℕ) (facility : ℤ) (hostname program : Option (List ℕ))
    → ℤ × Log
log_set_syslog aton socket l ip port facility hostname program =
    switched (open_syslog aton socket l.sys ip port facility hostname program) l

abbrev pub closed_fd : Log → List Event × Log
closed_fd l = if leb 3 l.fd then (closed l.fd ∷ [], record l { fd = stdout }) else ([], l)

-- `log_close`
unfoldable pub log_close : Log → List Event × Log
log_close l = elim l.dst [
  | console ↦ closed_fd l
  | file ↦ closed_fd l
  | syslog ↦ (map closed ((close l.sys).0), record l { sys = (close l.sys).1 })
]

-- `log_set_level`
unfoldable pub log_set_level : Log → (level : ℤ) → Log
log_set_level l level =
    if ltb_ℤ l.level (pos 0)
    then record l { level = pos 0 }
    else if ltb_ℤ (pos 3) l.level
    then record l { level = pos 3 }
    else record l { level = level }
