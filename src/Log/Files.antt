-- ===== src/Log/Files.antt =====
-- elog.c: the descriptor of the log over `log_set_file` and `log_close`.
use libeasy.Prelude.{
  ℕ, ◌≤◌, ◌≡◌, ◌≢◌, refl, ◌∙◌, true, false, none, some, List, [], ◌∷◌, arith, leb, ◌==◌, get_elem?,
  min,
}
use libeasy.Prelude.Int.{pos}
use libeasy.Log.{
  Log, Call, wrote, closed, file, syslog, log_set_file, log_close, log_by_level, stdout, line,
  format_buffer, log_level_map,
}
use libeasy.Log.Output.{log_by_level-passes, to_destination-fd, to_fd-line}

-- A file that cannot be opened leaves the log on the descriptor that `log_set_file` has just closed:
-- the next message that prints something is written to it.
pub log_set_file_failed :
    (c : Call) (l : Log) (n t b : ℕ) (fmt name text : List ℕ)
    → l.fd ≢ stdout
    → l.dst ≢ syslog
    → l.level ≡ pos t
    → t ≤ n
    → get_elem? log_level_map (min n 3) ≡ some name
    → c.expand (format_buffer name c.now fmt) ≡ some (b ∷ text)
    → let set = log_set_file none l in
      (set.0 ≡ 0)
      × (set.1.0 ≡ closed l.fd ∷ [])
      × (log_by_level c (set.1.1) (pos n) fmt ≡ some (1, wrote l.fd (line (b ∷ text)) ∷ []))
unfolding log_set_file
log_set_file_failed c l n t b fmt name text f d e h named x =
    let other : (l.fd == stdout) ≡ false = ground arith in
    rw (other) (
      refl,
      refl,
      log_by_level-passes c l n t fmt e h
          ∙ to_destination-fd l.dst c l (pos (min n 3)) fmt d
          ∙ to_fd-line c l (min n 3) fmt name named b text x,
    )

-- A file that was opened takes the messages until `log_close`, which closes it and no other
-- descriptor, and after which they go to the standard output.
pub log_set_file-log_close :
    (c : Call) (l : Log) (fd n t b : ℕ) (fmt name text : List ℕ)
    → 3 ≤ fd
    → l.level ≡ pos t
    → t ≤ n
    → get_elem? log_level_map (min n 3) ≡ some name
    → c.expand (format_buffer name c.now fmt) ≡ some (b ∷ text)
    → let opened = (log_set_file (some fd) l).1.1 in
      let shut = log_close opened in
      (log_by_level c opened (pos n) fmt ≡ some (1, wrote fd (line (b ∷ text)) ∷ []))
      × (shut.0 ≡ closed fd ∷ [])
      × (log_by_level c (shut.1) (pos n) fmt ≡ some (1, wrote stdout (line (b ∷ text)) ∷ []))
unfolding log_set_file log_close
log_set_file-log_close c l fd n t b fmt name text f e h named x =
    let high : leb 3 fd ≡ true = ground arith in
    let no : file ≢ syslog = λ e. absurd (cc) in
    rw (high) (
      log_by_level-passes c (record l { dst = file; fd = fd }) n t fmt e h
          ∙ to_fd-line c (record l { dst = file; fd = fd }) (min n 3) fmt name named b text x,
      refl,
      log_by_level-passes c (record l { dst = file; fd = stdout }) n t fmt e h
          ∙ to_fd-line c (record l { dst = file; fd = stdout }) (min n 3) fmt name named b text x,
    )
