-- ===== src/Syslog.antt =====
-- esyslog.c: one datagram for each message, `<priority>timestamp hostname program[pid]: message`.
pub mod Packet
pub mod Session
mod Tests
use Prim.Native.Nat.{bit_or}
use libeasy.Prelude.{
  ℕ, zero, suc, ◌+◌, ◌-◌, Bool, true, false, Option, none, some, List, [], ◌∷◌, ◌++◌, ltb, leb,
  ◌||◌, if◌then◌else◌, length, take, get_elem?,
}
use libeasy.Prelude.Fault.{◌>>=◌}
use libeasy.Prelude.Int.{ℤ, pos, negsuc, ltb_ℤ}
use libeasy.Prelude.Text.{codes, decimal}

-- The static variables; `sock_fd` and `facility` are `none` for -1. The address follows from `ip`
-- and `port`.
pub record Syslog : Type 0 where
  pub ip : List ℕ
  pub port : ℕ
  pub sock_fd : Option ℕ
  pub facility : Option ℕ
  pub hostname : List ℕ
  pub program : List ℕ

abbrev pub closed : Syslog
closed = record { ip = []; port = 0; sock_fd = none; facility = none; hostname = []; program = [] }

-- What `localtime_r` answers: the month counts from 0.
pub record Clock : Type 0 where
  pub mon : ℕ
  pub mday : ℕ
  pub hour : ℕ
  pub min : ℕ
  pub sec : ℕ

-- `months`
abbrev pub months : List (List ℕ)
months =
    codes "Jan"
    ∷ codes "Feb"
    ∷ codes "Mar"
    ∷ codes "Apr"
    ∷ codes "May"
    ∷ codes "Jun"
    ∷ codes "Jul"
    ∷ codes "Aug"
    ∷ codes "Sep"
    ∷ codes "Oct"
    ∷ codes "Nov"
    ∷ codes "Dec"
    ∷ []

-- `months[tm.tm_mon - 1]`, a fault out of bounds.
abbrev pub month_name : ℕ → Option (List ℕ)
month_name zero = none
month_name (suc m) = get_elem? months m

abbrev pub max_level : ℕ
max_level = 7

abbrev pub max_facility : ℕ
max_facility = 184

-- `strncpy` into 32 bytes that were cleared.
abbrev pub name_field : List ℕ → List ℕ
name_field text = take 31 text

abbrev pub optional_field : Option (List ℕ) → List ℕ
optional_field none = []
optional_field (some text) = name_field text

-- The part of `syslog_open` from the test of the facility on.
unfoldable pub open_named :
    (facility : ℤ) (hostname : Option (List ℕ)) (program : List ℕ) → Syslog → ℤ × Syslog
open_named (negsuc n) hostname program s = (negsuc 0, s)
open_named (pos f) hostname program s = if ltb max_facility f then (negsuc 0, s) else (
  pos 1,
  record s { facility = some f; hostname = optional_field hostname; program = name_field program },
)

-- `syslog_open`. A text is `none` for NULL; `aton` says that `inet_aton` gives no negative answer,
-- and `socket` is the answer of `socket`.
unfoldable pub open_syslog :
    (aton : Bool) (socket : Option ℕ)
    → Syslog
    → (ip : Option (List ℕ)) (port : ℕ) (facility : ℤ) (hostname program : Option (List ℕ))
    → ℤ × Syslog
unfolding open_named
open_syslog aton socket s none port facility hostname program = (pos 0, s)
open_syslog aton socket s (some ip) port facility hostname none = (pos 0, s)
open_syslog false socket s (some ip) port facility hostname (some program) =
    (negsuc 0, record s { ip = name_field ip; port = port })
open_syslog true none s (some ip) port facility hostname (some program) =
    (negsuc 0, record s { ip = name_field ip; port = port; sock_fd = none })
open_syslog true (some fd) s (some ip) port facility hostname (some program) =
    open_named facility hostname program
      (record s { ip = name_field ip; port = port; sock_fd = some fd })

-- `%2d` and `%02d`
abbrev pub padded : (fill : ℕ) → List ℕ → List ℕ
padded fill (d ∷ []) = fill ∷ d ∷ []
padded fill ds = ds

abbrev pub two_digits : ℕ → List ℕ
two_digits n = padded b'0' (decimal n)

-- `SYSLOG_MAKEPRI(syslog_facility, level)` in decimal; -1 with any bits set is -1.
abbrev pub priority : Option ℕ → ℕ → List ℕ
priority none level = codes "-1"
priority (some f) level = decimal (bit_or f level)

-- The three texts that are printed before the message.
unfoldable pub pri_part : Syslog → ℕ → List ℕ
pri_part s level = codes "<" ++ (priority s.facility level ++ codes ">")

unfoldable pub header_part : Syslog → Clock → (month : List ℕ) → List ℕ
header_part s t month =
    month
    ++ (codes " "
        ++ (padded b' ' (decimal t.mday)
            ++ (codes " "
                ++ (two_digits t.hour
                    ++ (codes ":"
                        ++ (two_digits t.min
                            ++ (codes ":"
                                ++ (two_digits t.sec
                                    ++ (codes " " ++ (s.hostname ++ codes " "))))))))))

unfoldable pub tag_part : Syslog → (pid : ℕ) → List ℕ
tag_part s pid = s.program ++ (codes "[" ++ (decimal pid ++ codes "]: "))

abbrev pub buffer_size : ℕ
buffer_size = 1024

-- `snprintf(buffer + offset, sizeof(buffer) - offset, …)` and `offset += result`: the bytes so far,
-- and the offset, which counts what did not fit too.
abbrev pub Printed : Type 0
Printed = List ℕ × ℕ

abbrev pub print : List ℕ → Printed → Printed
print text (buffer, offset) = (buffer ++ take (buffer_size - offset - 1) text, offset + length text)

unfoldable pub head : Syslog → Clock → (pid level : ℕ) → (month : List ℕ) → Printed
unfolding pri_part header_part tag_part
head s t pid level month =
    print (tag_part s pid) (print (header_part s t month) (print (pri_part s level) ([], 0)))

-- The message behind what is printed, cut off at the end of the buffer.
unfoldable pub with_message : Printed → List ℕ → List ℕ
with_message (buffer, offset) msg =
    if ltb (length msg) (buffer_size - offset)
    then buffer ++ msg
    else buffer ++ take (buffer_size - offset) msg

-- The part of `syslog_write` behind its tests: whether it succeeds, and the datagram that goes to
-- `sendto`, which answers `sent`.
unfoldable pub send :
    (sent : Bool)
    → Clock
    → (pid : ℕ) → Syslog
    → (level : ℕ) (msg : List ℕ) → Option (Bool × List (List ℕ))
unfolding head with_message
send sent t pid s level msg =
    month_name t.mon >>= λ month. some (sent, with_message (head s t pid level month) msg ∷ [])

-- `syslog_write` of the bytes of `msg`, `length` in number.
unfoldable pub write :
    (sent : Bool)
    → Clock
    → (pid : ℕ) → Syslog
    → (level : ℤ) (msg : List ℕ) → Option (Bool × List (List ℕ))
unfolding send
write sent t pid s (negsuc n) msg = some (false, [])
write sent t pid s (pos level) msg =
    if ltb max_level level
    then some (false, [])
    else elim s.sock_fd [ none ↦ some (false, []) | some fd ↦ send sent t pid s level msg ]

-- `syslog_close`; the descriptors that are closed are listed.
pub close : Syslog → List ℕ × Syslog
close s = elim s.sock_fd [ none ↦ ([], s) | some fd ↦ (fd ∷ [], record s { sock_fd = none }) ]
