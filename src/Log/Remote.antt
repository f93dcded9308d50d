-- ===== src/Log/Remote.antt =====
-- elog.c: the log on syslog.
use libeasy.Prelude.{
  ℕ, zero, suc, ◌≤◌, ◌<◌, ◌≡◌, refl, ap, ◌∙◌, Bool, true, some, List, [], ◌∷◌, ◌++◌, arith,
  get_elem?, take, min,
}
use libeasy.Prelude.Int.{ℤ, pos, negsuc}
use libeasy.Prelude.Text.{codes}
use libeasy.Syslog.{
  Syslog, closed, open_syslog, write, month_name, max_facility, header_part, tag_part, buffer_size,
}
use libeasy.Syslog.Packet.{packet}
use libeasy.Syslog.Session.{open_syslog-write, refused_open-write}
use libeasy.Log.{
  Log, Call, syslog, syslog_level_map, to_syslog, log_by_level, line, to_destination,
  log_set_syslog, answer_of, switched,
}
use libeasy.Log.Output.{log_by_level-passes}

-- A message that `syslog_write` takes.
to_syslog-write :
    (c : Call) (l : Log) (n p b : ℕ) (fmt text : List ℕ) (answer : Bool × List (List ℕ))
    → get_elem? syslog_level_map n ≡ some p
    → c.expand fmt ≡ some (b ∷ text)
    → write c.sends c.clock c.pid l.sys (pos p) (line (b ∷ text)) ≡ some answer
    → to_syslog c l (pos n) fmt ≡ some (answer_of answer)
unfolding to_syslog
to_syslog-write c l n p b fmt text answer e x w = rw (x, e, w) refl

-- Every level has a priority that syslog knows.
level_bounds : (n p : ℕ) → get_elem? syslog_level_map n ≡ some p → (n ≤ 3) × (p ≤ 7)
level_bounds zero p e = let m : 7 ≡ p = cc in (omega arith, omega arith)
level_bounds (suc zero) p e = let m : 6 ≡ p = cc in (omega arith, omega arith)
level_bounds (suc (suc zero)) p e = let m : 4 ≡ p = cc in (omega arith, omega arith)
level_bounds (suc (suc (suc zero))) p e = let m : 3 ≡ p = cc in (omega arith, omega arith)
level_bounds (suc (suc (suc (suc n)))) p e = absurd (cc)

switched_good :
    (o : ℤ × Syslog) (l : Log)
    → o.0 ≡ pos 1
    → switched o l ≡ (pos 1, record l { dst = syslog; sys = o.1 })
switched_good (pos zero, s) l h = absurd (cc)
switched_good (pos (suc n), s) l h = ap (λ i. (i, record l { dst = syslog; sys = s })) h
switched_good (negsuc n, s) l h = absurd (cc)

switched_bad :
    (o : ℤ × Syslog) (l : Log)
    → o.0 ≡ negsuc 0
    → switched o l ≡ (negsuc 0, record l { dst = syslog; sys = o.1 })
switched_bad (pos zero, s) l h = absurd (cc)
switched_bad (pos (suc n), s) l h = absurd (cc)
switched_bad (negsuc n, s) l h = ap (λ i. (i, record l { dst = syslog; sys = s })) h

-- A message on the way to syslog.
log_by_level-write :
    (c : Call) (l : Log) (n t p b : ℕ) (fmt text : List ℕ) (answer : Bool × List (List ℕ))
    → l.dst ≡ syslog
    → l.level ≡ pos t
    → t ≤ n
    → get_elem? syslog_level_map n ≡ some p
    → c.expand fmt ≡ some (b ∷ text)
    → write c.sends c.clock c.pid l.sys (pos p) (line (b ∷ text)) ≡ some answer
    → log_by_level c l (pos n) fmt ≡ some (answer_of answer)
log_by_level-write c l n t p b fmt text answer d e h at x w =
    let bounds = level_bounds n p at in
    let clamp : min n 3 ≡ n = let i = bounds.0 in omega arith in
    log_by_level-passes c l n t fmt e h
    ∙ ap (λ k. to_destination k c l (pos (min n 3)) fmt) d
    ∙ ap (λ i. to_syslog c l (pos i) fmt) clamp
    ∙ to_syslog-write c l n p b fmt text answer at x w

-- After `log_set_syslog` with a facility in range, which answers 1, each message of a level in range
-- and not below the threshold that prints something goes out as one datagram, in any month but the
-- first: under the facility and the syslog level of its level, with its line as the message.
pub log_set_syslog-log_by_level :
    (c : Call) (l : Log) (fd : ℕ) (ip : List ℕ) (port facility : ℕ) (hostname program : List ℕ)
    (n t p b : ℕ) (fmt text month : List ℕ)
    → facility ≤ max_facility
    → l.level ≡ pos t
    → t ≤ n
    → get_elem? syslog_level_map n ≡ some p
    → c.expand fmt ≡ some (b ∷ text)
    → month_name c.clock.mon ≡ some month
    → let set =
        log_set_syslog true
          (some fd)
          l
          (some ip)
          port
          (pos facility)
          (some hostname)
          (some program) in
      (set.0 ≡ pos 1)
      × (log_by_level c (set.1) (pos n) fmt
          ≡ some (
              answer_of (
                c.sends,
                take buffer_size (
                      packet
                        (record l.sys {
                          facility = some facility;
                          hostname = take 31 hostname;
                          program = take 31 program;
                        })
                        c.clock
                        c.pid
                        p
                        month
                        (line (b ∷ text)))
                    ∷ [],
              )))
unfolding log_set_syslog
log_set_syslog-log_by_level c l fd ip port facility hostname program n t p b fmt text month f e h at
      x m =
    let o =
      open_syslog true (some fd) l.sys (some ip) port (pos facility) (some hostname)
        (some program) in
    let w =
      open_syslog-write c.sends c.clock c.pid l.sys fd ip port facility hostname program p
        (line (b ∷ text)) month f ((level_bounds n p at).1) m in
    rw (switched_good o l (w.0)) (
      refl,
      log_by_level-write c (record l { dst = syslog; sys = o.1 }) n t p b fmt text _ refl e h at x
          (w.1),
    )

-- `log_set_syslog` with a facility out of range answers -1, and sends the log to syslog all the
-- same: where syslog was never opened before, a message of a level in range and not below the
-- threshold that prints something goes out, in any month but the first, as a datagram under the
-- priority -1, without the names.
pub log_set_syslog_refused :
    (c : Call) (l : Log) (fd : ℕ) (ip : List ℕ) (port facility : ℕ) (hostname program : List ℕ)
    (n t p b : ℕ) (fmt text month : List ℕ)
    → max_facility < facility
    → l.level ≡ pos t
    → t ≤ n
    → get_elem? syslog_level_map n ≡ some p
    → c.expand fmt ≡ some (b ∷ text)
    → month_name c.clock.mon ≡ some month
    → let set =
        log_set_syslog true
          (some fd)
          (record l { sys = closed })
          (some ip)
          port
          (pos facility)
          (some hostname)
          (some program) in
      (set.0 ≡ negsuc 0)
      × (log_by_level c (set.1) (pos n) fmt
          ≡ some (
              answer_of (
                c.sends,
                take buffer_size (
                      codes "<-1>"
                      ++ (header_part closed c.clock month
                          ++ (tag_part closed c.pid ++ line (b ∷ text))))
                    ∷ [],
              )))
unfolding log_set_syslog
log_set_syslog_refused c l fd ip port facility hostname program n t p b fmt text month f e h at x
      m =
    let o =
      open_syslog true (some fd) closed (some ip) port (pos facility) (some hostname)
        (some program) in
    let w =
      refused_open-write c.sends c.clock c.pid fd ip port facility hostname program p
        (line (b ∷ text)) month f ((level_bounds n p at).1) m in
    rw (switched_bad o (record l { sys = closed }) (w.0)) (
      refl,
      log_by_level-write c (record l { dst = syslog; sys = o.1 }) n t p b fmt text _ refl e h at x
          (w.1),
    )
