-- ===== src/Syslog/Session.antt =====
-- esyslog.c: `syslog_open`, and the writes after it.
use libeasy.Prelude.{
  ℕ, ◌≤◌, ◌<◌, ◌≡◌, refl, ap, ◌∙◌, Bool, true, false, Option, none, some, List, [], ◌∷◌, ◌++◌,
  arith, ltb, take, Bool-cases, inl, inr,
}
use libeasy.Prelude.Fault.{◌>>=◌}
use libeasy.Prelude.Int.{ℤ, pos, negsuc}
use libeasy.Prelude.Text.{codes}
use libeasy.Syslog.{
  Syslog, closed, Clock, month_name, name_field, open_named, open_syslog, pri_part, header_part,
  tag_part, head, with_message, send, write, buffer_size, max_facility, max_level,
}
use libeasy.Syslog.Packet.{
  IsNamed, packet, length-name_field, length-optional_field, write-send, write-packet,
}

-- `syslog_open` leaves names that fit their fields, whatever it is given.
pub open_syslog-IsNamed :
    (aton : Bool) (socket : Option ℕ) (s : Syslog)
    → IsNamed s
    → (ip : Option (List ℕ)) (port : ℕ) (facility : ℤ) (hostname program : Option (List ℕ))
    → IsNamed ((open_syslog aton socket s ip port facility hostname program).1)
unfolding open_syslog open_named
open_syslog-IsNamed aton socket s named none port facility hostname program = named
open_syslog-IsNamed aton socket s named (some ip) port facility hostname none = named
open_syslog-IsNamed false socket s named (some ip) port facility hostname (some program) = record {
  host_fits = named.host_fits;
  program_fits = named.program_fits;
}
open_syslog-IsNamed true none s named (some ip) port facility hostname (some program) = record {
  host_fits = named.host_fits;
  program_fits = named.program_fits;
}
open_syslog-IsNamed true (some fd) s named (some ip) port (negsuc n) hostname (some program) =
    record { host_fits = named.host_fits; program_fits = named.program_fits }
open_syslog-IsNamed true (some fd) s named (some ip) port (pos f) hostname (some program) =
    elim (Bool-cases (ltb max_facility f)) [
      | inl beyond ↦
          rw (beyond) record { host_fits = named.host_fits; program_fits = named.program_fits }
      | inr within ↦ rw (within) record {
        host_fits = length-optional_field hostname;
        program_fits = length-name_field program;
      }
    ]

-- In January `syslog_write` reads before the start of `months`.
pub write_january :
    (sent : Bool) (t : Clock) (pid : ℕ) (s : Syslog) (level : ℕ) (msg : List ℕ) (fd : ℕ)
    → s.sock_fd ≡ some fd
    → level ≤ max_level
    → t.mon ≡ 0
    → write sent t pid s (pos level) msg ≡ none
unfolding send
write_january sent t pid s level msg fd socket h e =
    write-send sent t pid s level msg fd socket h
    ∙ ap
        (λ m.
          month_name m >>= λ month. some (sent, with_message (head s t pid level month) msg ∷ []))
        e

closed-IsNamed : IsNamed closed
closed-IsNamed = record { host_fits = omega arith; program_fits = omega arith }

-- A logger that was opened with an address, with names and with a facility in range, where the address
-- was read and the socket was made, sends every message of a level in range, under
-- that facility and the first 31 bytes of the names, in any month but the first; the month in its
-- timestamp is the one that the code takes, the month before.
pub open_syslog-write :
    (sent : Bool) (t : Clock) (pid : ℕ) (s : Syslog) (fd : ℕ) (ip : List ℕ) (port facility : ℕ)
    (hostname program : List ℕ) (level : ℕ) (msg month : List ℕ)
    → facility ≤ max_facility
    → level ≤ max_level
    → month_name t.mon ≡ some month
    → let opened =
        open_syslog true (some fd) s (some ip) port (pos facility) (some hostname) (some program) in
      (opened.0 ≡ pos 1)
      × (write sent t pid (opened.1) (pos level) msg
          ≡ some (
            sent,
            take buffer_size (
                  packet
                    (record s {
                      facility = some facility;
                      hostname = take 31 hostname;
                      program = take 31 program;
                    })
                    t
                    pid
                    level
                    month
                    msg)
                ∷ [],
          ))
unfolding open_syslog open_named packet pri_part header_part tag_part
open_syslog-write sent t pid s fd ip port facility hostname program level msg month f h e =
    let within : ltb max_facility facility ≡ false = ground arith in
    rw (within) (
      refl,
      write-packet sent t pid
          record {
            ip = name_field ip;
            port = port;
            sock_fd = some fd;
            facility = some facility;
            hostname = name_field hostname;
            program = name_field program;
          }
          level msg month fd
          record {
            host_fits = length-name_field hostname;
            program_fits = length-name_field program;
          }
          refl h e,
    )

-- After a call that was refused with -1 for its facility, the logger is open all the same: it sends
-- what is written, where it was never opened before under the priority -1.
pub refused_open-write :
    (sent : Bool) (t : Clock) (pid fd : ℕ) (ip : List ℕ) (port facility : ℕ)
    (hostname program : List ℕ) (level : ℕ) (msg month : List ℕ)
    → max_facility < facility
    → level ≤ max_level
    → month_name t.mon ≡ some month
    → let opened =
        open_syslog true
          (some fd)
          closed
          (some ip)
          port
          (pos facility)
          (some hostname)
          (some program) in
      (opened.0 ≡ negsuc 0)
      × (write sent t pid (opened.1) (pos level) msg
          ≡ some (
            sent,
            take buffer_size
                  (codes "<-1>" ++ (header_part closed t month ++ (tag_part closed pid ++ msg)))
                ∷ [],
          ))
unfolding open_syslog open_named packet pri_part header_part tag_part
refused_open-write sent t pid fd ip port facility hostname program level msg month f h e =
    let beyond : ltb max_facility facility ≡ true = ground arith in
    rw (beyond) (
      refl,
      write-packet sent t pid (record closed { ip = name_field ip; port = port; sock_fd = some fd })
          level msg month fd
          record {
            host_fits = closed-IsNamed.host_fits;
            program_fits = closed-IsNamed.program_fits;
          }
          refl h e,
    )
