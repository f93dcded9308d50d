-- ===== src/Log/Tests.antt =====
-- elog.c: runs, and the theorems at concrete inputs.
use libeasy.Prelude.{◌≡◌, refl, true, none, some, [], ◌∷◌, ◌++◌}
use libeasy.Prelude.Int.{pos}
use libeasy.Prelude.Text.{codes}
use libeasy.Syslog.{closed as unopened}
use libeasy.Log.{
  Log, Call, wrote, closed, console, file, log_close, log_by_level, log_debug, log_info, log_warn,
  stdout, line, line_in, to_fd,
}

-- The log as the program starts.
abbrev fresh : Log
fresh = record { level = pos 1; fd = stdout; dst = console; sys = unopened }

-- A call without arguments and with a format that has no conversions.
abbrev plain_call : Call
plain_call = record {
  expand = λ text. some text;
  now = codes "2014-02-04 09:05:17";
  clock = record { mon = 1; mday = 4; hour = 9; min = 5; sec = 17 };
  pid = 42;
  sends = true;
}

abbrev in_file : Log
in_file = record fresh { dst = file; fd = 5 }

warn_test :
    log_warn plain_call fresh (codes "full")
    ≡ some (1, wrote 1 (codes "[WARN] [2014-02-04 09:05:17] full" ++ b'\n' ∷ []) ∷ [])
unfolding log_warn log_by_level to_fd line line_in
warn_test = refl

debug_test : log_debug plain_call fresh (codes "full") ≡ some (1, [])
unfolding log_debug log_by_level
debug_test = refl

info_test :
    log_info (record plain_call { expand = λ text. none }) fresh (codes "full") ≡ some (0, [])
unfolding log_info log_by_level to_fd
info_test = refl

-- A line cut off, in a buffer of eight bytes.
cut_test : line_in 8 (codes "abcdefgh") ≡ codes "abcde" ++ 0 ∷ b'\n' ∷ []
unfolding line_in
cut_test = refl

close_test : log_close in_file ≡ (closed 5 ∷ [], record in_file { fd = stdout })
unfolding log_close
close_test = refl
