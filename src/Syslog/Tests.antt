-- ===== src/Syslog/Tests.antt =====
-- esyslog.c: runs, and the theorems at concrete inputs.
use libeasy.Prelude.{◌≡◌, refl, true, false, some, [], ◌∷◌, arith, take}
use libeasy.Prelude.Int.{pos}
use libeasy.Prelude.Text.{codes, decimal}
use libeasy.Syslog.{
  Syslog, closed, Clock, open_syslog, write, send, head, with_message, header_part, tag_part,
  pri_part,
}
use libeasy.Syslog.Packet.{IsNamed, packet, write-packet}
use libeasy.Syslog.Session.{open_syslog-write}

-- The 4th of the second month, of which `localtime_r` says 1.
abbrev february : Clock
february = record { mon = 1; mday = 4; hour = 9; min = 5; sec = 17 }

abbrev opened : Syslog
opened = record {
  ip = codes "127.0.0.1";
  port = 514;
  sock_fd = some 5;
  facility = some 128;
  hostname = codes "web";
  program = codes "test";
}

opened-IsNamed : IsNamed opened
opened-IsNamed = record { host_fits = omega arith; program_fits = omega arith }

-- The month is printed as the one before it.
write_test :
    write true february 42 opened (pos 6) (codes "hello")
    ≡ some (true, codes "<134>Jan  4 09:05:17 web test[42]: hello" ∷ [])
unfolding write send head with_message pri_part header_part tag_part decimal
write_test = refl

level_test : write true february 42 opened (pos 8) (codes "hello") ≡ some (false, [])
unfolding write
level_test = refl

closed_test : write true february 42 closed (pos 6) (codes "hello") ≡ some (false, [])
unfolding write
closed_test = refl

write-packet_example :
    write true february 42 opened (pos 6) (codes "hello")
    ≡ some (true, take 1024 (packet opened february 42 6 (codes "Jan") (codes "hello")) ∷ [])
write-packet_example =
    write-packet true february 42 opened 6 (codes "hello") (codes "Jan") 5 opened-IsNamed refl
      (omega arith) refl

open_syslog-write_example :
    let opened =
      open_syslog true
        (some 5)
        closed
        (some (codes "127.0.0.1"))
        514
        (pos 128)
        (some (codes "web"))
        (some (codes "test")) in
    (opened.0 ≡ pos 1)
    × (write true february 42 (opened.1) (pos 6) (codes "hello")
        ≡ some (
          true,
          take 1024 (
                packet
                  (record closed {
                    facility = some 128;
                    hostname = codes "web";
                    program = codes "test";
                  })
                  february
                  42
                  6
                  (codes "Jan")
                  (codes "hello"))
              ∷ [],
        ))
open_syslog-write_example =
    open_syslog-write true february 42 closed 5 (codes "127.0.0.1") 514 128 (codes "web")
      (codes "test") 6 (codes "hello") (codes "Jan") (omega arith) (omega arith) refl
