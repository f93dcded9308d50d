-- ===== src/Sockets/Tests.antt =====
-- enetwork.c: the theorem where the last call fails.
use libeasy.Prelude.{true, false, some}
use libeasy.Prelude.Text.{codes}
use libeasy.Sockets.{
  Answers, udp_server_create, udp_client_create, unix_udp_server_create, unix_udp_client_create,
}
use libeasy.Sockets.Leaks.{Accounts, creations-Accounts}

abbrev port_taken : Answers
port_taken = record { socket_fd = some 5; flags = some 2; set_flags = λ n. true; bound = false }

creations-Accounts_example :
    Accounts (some 5) (udp_server_create port_taken 80)
    × Accounts (some 5) (udp_client_create port_taken)
    × Accounts (some 5) (unix_udp_server_create port_taken (codes "/tmp/s"))
    × Accounts (some 5) (unix_udp_client_create port_taken)
creations-Accounts_example = creations-Accounts port_taken 80 (codes "/tmp/s")
