-- ===== src/Sockets/Leaks.antt =====
-- enetwork.c: no descriptor is lost.
use libeasy.Prelude.{ℕ, ◌≡◌, refl, Option, none, some, List, [], ◌∷◌, Bool-cases, inl, inr}
use libeasy.Sockets.{
  Call, socket, close, bind_port, bind_path, unlink, Answers, Result, sock_set_nonblocking,
  client_on, server_on, unix_on, udp_server_create, udp_client_create, unix_udp_server_create,
  unix_udp_client_create,
}

-- The descriptors that the calls close.
abbrev pub closed : List Call → List ℕ
closed [] = []
closed (socket ∷ cs) = closed cs
closed (close fd ∷ cs) = fd ∷ closed cs
closed (bind_port fd port ∷ cs) = closed cs
closed (bind_path fd path ∷ cs) = closed cs
closed (unlink path ∷ cs) = closed cs

-- What was opened is returned and left open, or closed once; nothing else is closed.
abbrev pub Accounts : Option ℕ → Result → Type 0
Accounts none r = (r.0 ≡ none) × (closed (r.1) ≡ [])
Accounts (some fd) (none, calls) = closed calls ≡ fd ∷ []
Accounts (some fd) (some got, calls) = (got ≡ fd) × (closed calls ≡ [])

client_on-Accounts : (a : Answers) (fd : Option ℕ) → Accounts fd (client_on a fd)
client_on-Accounts a none = (refl, refl)
client_on-Accounts a (some fd) = elim (Bool-cases (sock_set_nonblocking a)) [
  | inl ok ↦ simp (ok) (refl, refl)
  | inr failed ↦ simp (failed) refl
]

server_on-Accounts : (a : Answers) (port : ℕ) (fd : Option ℕ) → Accounts fd (server_on a port fd)
server_on-Accounts a port none = (refl, refl)
server_on-Accounts a port (some fd) = elim (Bool-cases (sock_set_nonblocking a)) [
  | inl ok ↦ elim (Bool-cases a.bound) [
    | inl bound ↦ simp (ok, bound) (refl, refl)
    | inr refused ↦ simp (ok, refused) refl
  ]
  | inr failed ↦ simp (failed) refl
]

unix_on-Accounts : (a : Answers) (path : List ℕ) (fd : Option ℕ) → Accounts fd (unix_on a path fd)
unix_on-Accounts a path none = (refl, refl)
unix_on-Accounts a path (some fd) = elim (Bool-cases (sock_set_nonblocking a)) [
  | inl ok ↦ elim (Bool-cases a.bound) [
    | inl bound ↦ simp (ok, bound) (refl, refl)
    | inr refused ↦ simp (ok, refused) refl
  ]
  | inr failed ↦ simp (failed) refl
]

-- Whatever the system answers, each of the four functions that create a socket returns the descriptor
-- that it opened and leaves it open, or returns -1 and has closed it once.
pub creations-Accounts :
    (a : Answers) (port : ℕ) (path : List ℕ)
    → Accounts a.socket_fd (udp_server_create a port)
      × Accounts a.socket_fd (udp_client_create a)
      × Accounts a.socket_fd (unix_udp_server_create a path)
      × Accounts a.socket_fd (unix_udp_client_create a)
unfolding udp_server_create udp_client_create unix_udp_server_create unix_udp_client_create
creations-Accounts a port path = (
  server_on-Accounts a port a.socket_fd,
  client_on-Accounts a a.socket_fd,
  unix_on-Accounts a path a.socket_fd,
  client_on-Accounts a a.socket_fd,
)
