-- ===== src/Sockets.antt =====
-- enetwork.c: sockets for datagrams, over the network and over a path.
pub mod Leaks
pub mod Datagrams
mod Tests
use Prim.Native.Nat.{bit_or}
use libeasy.Prelude.{
  ℕ, Bool, true, false, Option, none, some, List, [], ◌∷◌, if◌then◌else◌, take, not, ◌==◌,
}
use libeasy.Prelude.Int.{ℤ, pos, negsuc}

-- What the functions call outside with an effect.
pub data Call : Type 0 where
  socket : Call
  close : ℕ → Call
  bind_port : (fd port : ℕ) → Call
  bind_path : (fd : ℕ) (path : List ℕ) → Call
  unlink : List ℕ → Call

-- What the system answers: `socket` and `fcntl` with F_GETFL, `none` for -1, and whether `fcntl` with
-- F_SETFL and `bind` succeed.
pub record Answers : Type 0 where
  pub socket_fd : Option ℕ
  pub flags : Option ℕ
  pub set_flags : ℕ → Bool
  pub bound : Bool

-- O_NONBLOCK
abbrev pub nonblocking_flag : ℕ
nonblocking_flag = 2048

-- The bytes of `sun_path` that are used.
abbrev pub max_sun_path : ℕ
max_sun_path = 107

abbrev pub set_nonblocking : Answers → Option ℕ → Bool
set_nonblocking a none = false
set_nonblocking a (some opts) = a.set_flags (bit_or opts nonblocking_flag)

-- `sock_set_nonblocking`
unfoldable pub sock_set_nonblocking : Answers → Bool
sock_set_nonblocking a = set_nonblocking a a.flags

-- The descriptor that is returned, and the calls.
abbrev pub Result : Type 0
Result = Option ℕ × List Call

abbrev pub bind_server : Answers → (fd port : ℕ) → Result
bind_server a fd port =
    if a.bound
    then (some fd, socket ∷ bind_port fd port ∷ [])
    else (none, socket ∷ bind_port fd port ∷ close fd ∷ [])

abbrev pub client_on : Answers → Option ℕ → Result
client_on a none = (none, socket ∷ [])
client_on a (some fd) =
    if sock_set_nonblocking a then (some fd, socket ∷ []) else (none, socket ∷ close fd ∷ [])

abbrev pub server_on : Answers → (port : ℕ) → Option ℕ → Result
server_on a port none = (none, socket ∷ [])
server_on a port (some fd) =
    if sock_set_nonblocking a then bind_server a fd port else (none, socket ∷ close fd ∷ [])

-- `udp_server_create`
unfoldable pub udp_server_create : Answers → (port : ℕ) → Result
udp_server_create a port = server_on a port a.socket_fd

-- `udp_client_create`
unfoldable pub udp_client_create : Answers → Result
udp_client_create a = client_on a a.socket_fd

-- The whole path is unlinked, and what fits is bound.
abbrev pub bind_unix : Answers → (fd : ℕ) → (path : List ℕ) → Result
bind_unix a fd path =
    let name = take max_sun_path path in
    if a.bound
    then (some fd, socket ∷ unlink path ∷ bind_path fd name ∷ [])
    else (none, socket ∷ unlink path ∷ bind_path fd name ∷ close fd ∷ [])

abbrev pub unix_on : Answers → (path : List ℕ) → Option ℕ → Result
unix_on a path none = (none, socket ∷ [])
unix_on a path (some fd) =
    if sock_set_nonblocking a then bind_unix a fd path else (none, socket ∷ close fd ∷ [])

-- `unix_udp_server_create`
unfoldable pub unix_udp_server_create : Answers → (sock_path : List ℕ) → Result
unix_udp_server_create a sock_path = unix_on a sock_path a.socket_fd

-- `unix_udp_client_create`
unfoldable pub unix_udp_client_create : Answers → Result
unix_udp_client_create a = client_on a a.socket_fd

-- `sock_set_rcv_buffer_size` and `sock_set_snd_buffer_size`, with the answers of `getsockopt` and of
-- `setsockopt` for the size.
unfoldable pub sock_set_rcv_buffer_size :
    (getsockopt : Bool) (setsockopt : ℤ → Bool) → (size : ℤ) → Bool
sock_set_rcv_buffer_size get set size = if get then set size else false

unfoldable pub sock_set_snd_buffer_size :
    (getsockopt : Bool) (setsockopt : ℤ → Bool) → (size : ℤ) → Bool
sock_set_snd_buffer_size get set size = if get then set size else false

-- `is_valid_ip` on the answer of `inet_pton`.
unfoldable pub is_valid_ip : (inet_pton : ℤ) → Bool
is_valid_ip (pos n) = not (n == 0)
is_valid_ip (negsuc n) = true
