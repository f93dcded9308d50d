-- ===== src/Sockets/Datagrams.antt =====
-- v1.0.0/src/network/udp.c and network_util.c: datagrams over a path, and options of a socket.
use Prim.Native.Nat.{bit_or}
use libeasy.Prelude.{
  ℕ, ◌-◌, ◌<◌, ◌≡◌, refl, Bool, true, false, not, Option, none, some, List, [], ◌∷◌, ◌++◌,
  if◌then◌else◌, arith, ltb, length, take,
}
use libeasy.Prelude.Fault.{◌>>=◌}
use libeasy.Prelude.Int.{ℤ, pos, negsuc, ltb_ℤ}
use libeasy.Sockets.{Call, socket, close, bind_path, unlink, Result, max_sun_path, nonblocking_flag}
use libeasy.Sockets.Leaks.{Accounts}

-- The bytes of `struct sockaddr_un` and of its field `sun_path`.
abbrev pub address_size : ℕ
address_size = 110

abbrev pub sun_path_size : ℕ
sun_path_size = 108

-- `bind` on a fresh socket; `bound` is its answer.
abbrev pub bind_at : (bound : Bool) → (path : List ℕ) → Option ℕ → Result
bind_at bound path none = (none, socket ∷ [])
bind_at bound path (some fd) =
    let calls = socket ∷ unlink path ∷ bind_path fd (take max_sun_path path) ∷ [] in
    if bound then (some fd, calls) else (none, calls ++ close fd ∷ [])

-- `udp_unix_socket_create`; a path that is NULL opens nothing.
unfoldable pub udp_unix_socket_create :
    (socket_fd : Option ℕ) (bound : Bool) (unix_path : Option (List ℕ)) → Result
udp_unix_socket_create fd bound none = (none, [])
udp_unix_socket_create fd bound (some path) = bind_at bound path fd

-- `strncpy(dst, src, n)` writes `n` bytes, with zeros behind the string; `room` is the size of `dst`.
abbrev pub strncpy : (room n : ℕ) → List ℕ → Option (List ℕ)
strncpy room n src = if ltb room n then none else some (take n src)

-- `udp_unix_socket_send`; `sendto` answers what was sent to a path.
unfoldable pub udp_unix_socket_send :
    (sendto : List ℕ → ℤ) → (peer_path : Option (List ℕ)) → Option ℤ
udp_unix_socket_send sendto none = some (negsuc 0)
udp_unix_socket_send sendto (some path) =
    strncpy sun_path_size (address_size - 1) path >>= λ sun_path. some (sendto sun_path)

-- What `recvfrom` answers: EAGAIN, another error, or so many bytes.
pub data Received : Type 0 where
  again : Received
  failed : Received
  bytes : ℕ → Received

-- `udp_unix_socket_recv`
unfoldable pub udp_unix_socket_recv : Received → ℤ
udp_unix_socket_recv again = pos 0
udp_unix_socket_recv failed = negsuc 0
udp_unix_socket_recv (bytes n) = pos n

-- `udp_unix_socket_close`
unfoldable pub udp_unix_socket_close : ℕ → List Call
udp_unix_socket_close fd = close fd ∷ []

-- `set_reuse_addr` on the answer of `setsockopt`.
unfoldable pub set_reuse_addr : (setsockopt : ℤ) → Bool
set_reuse_addr ret = not (ltb_ℤ ret (pos 0))

-- `set_non_blocking` on the answers of the two calls of `fcntl`.
unfoldable pub set_non_blocking : (flags : Option ℕ) (set_flags : ℕ → Bool) → Bool
set_non_blocking none set_flags = false
set_non_blocking (some opts) set_flags = set_flags (bit_or opts nonblocking_flag)

-- The bytes of `ifr_name`.
abbrev pub name_size : ℕ
name_size = 16

abbrev pub nic_on :
    (address name : List ℕ) (ip_size : ℕ) → Option ℕ → Option (Option (List ℕ) × List Call)
nic_on address name ip_size none = some (none, socket ∷ [])
nic_on address name ip_size (some fd) =
    if ltb (length name) name_size
    then some (some (take (ip_size - 1) address), socket ∷ [])
    else none

-- `nic_get_ip`; `address` is the text that `inet_ntoa` makes of what `ioctl` gives.
unfoldable pub nic_get_ip :
    (socket_fd : Option ℕ) (address name : List ℕ) (ip_size : ℕ)
    → Option (Option (List ℕ) × List Call)
nic_get_ip fd address name ip_size = nic_on address name ip_size fd

pub udp_unix_socket_create-Accounts :
    (fd : Option ℕ) (bound : Bool) (path : List ℕ)
    → Accounts fd (udp_unix_socket_create fd bound (some path))
unfolding udp_unix_socket_create
udp_unix_socket_create-Accounts none bound path = (refl, refl)
udp_unix_socket_create-Accounts (some fd) true path = (refl, refl)
udp_unix_socket_create-Accounts (some fd) false path = refl

-- The path is copied with the size of the whole address, and not with that of the field: for every
-- path `udp_unix_socket_send` writes behind it.
pub udp_unix_socket_send_overflows :
    (sendto : List ℕ → ℤ) (path : List ℕ) → udp_unix_socket_send sendto (some path) ≡ none
unfolding udp_unix_socket_send
udp_unix_socket_send_overflows sendto path = refl

-- `nic_get_ip` does not close the socket that it opens.
pub nic_get_ip_leaks :
    (fd ip_size : ℕ) (address name : List ℕ)
    → length name < name_size
    → nic_get_ip (some fd) address name ip_size
      ≡ some (some (take (ip_size - 1) address), socket ∷ [])
unfolding nic_get_ip
nic_get_ip_leaks fd ip_size address name short =
    let fits : ltb (length name) name_size ≡ true = ground arith in simp (fits) refl
