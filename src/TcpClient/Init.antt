-- ===== src/TcpClient/Init.antt =====
-- network/tcp_client.c: how `tcp_client_stream_init` ends.
use libeasy.Prelude.{
  ℕ, suc, ◌%◌, ◌≡◌, refl, sym, ap, ◌∙◌, Bool, true, false, Option, none, some, List, [], ◌∷◌, ◌++◌,
  length, Bool-cases, Option-cases, inl, inr, ◌⊎◌,
}
use libeasy.Prelude.Fault.{Returns}
use libeasy.Prelude.Int.{ℤ, pos, negsuc}
use libeasy.MemPool.{Pool, create, alloc}
use libeasy.TcpServer.{Kernel, close_fd, destroy_pool}
use libeasy.TcpClient.{State, connecting, connected, Callbacks, no_callbacks, Stream}
use libeasy.TcpClient.Connecting.{
  Connect, done, in_progress, refused, Answers, tcp_client_stream_reset, give_up, watch, on_connect,
  on_address, on_name, on_pool, on_socket, init_fields,
}

-- The descriptor that `socket` gave.
abbrev pub fds : Option ℕ → List ℤ
fds none = []
fds (some fd) = pos fd ∷ []

-- The state that `connect` leads to.
abbrev pub state_of : Connect → State
state_of done = connected
state_of in_progress = connecting
state_of refused = connecting

module _ (a : Answers) (cbs : Callbacks) (x : ℕ) (text : List ℕ) (port : ℕ) (k : Kernel) where
  -- The stream connects to the address that `inet_addr` read from the name.
  pub record Goes (t : Stream) : Type 0 where
    pub addr : ℕ
    pub addr_is : a.inet_addr text ≡ some addr
    pub server_addr_is : t.server_addr ≡ some (addr, port % 65536)

  -- The stream has its descriptor, which epoll watches, `connect` did not refuse it, and nothing was
  -- closed or freed.
  pub record Opened (fd : ℕ) (t : Stream) (l : Kernel) : Type 0 where
    pub sock_fd_is : t.sock_fd ≡ pos fd
    pub client_is : t.client ≡ true
    pub server_ip_is : t.server_ip ≡ some text
    pub port_is : t.port ≡ port
    pub state_is : t.tcp_state ≡ state_of a.connect
    pub goes : Goes t
    pub connect_is : (a.connect ≡ done) ⊎ (a.connect ≡ in_progress)
    pub callbacks_is : t.callbacks ≡ cbs
    pub kernel_is : l ≡ record k { watched = (fd, x) ∷ k.watched }

  -- The stream is as if it had not been used, and the descriptor that it had got was closed.
  pub record GivenUp (t : Stream) (l : Kernel) : Type 0 where
    pub sock_fd_is : t.sock_fd ≡ negsuc 0
    pub client_is : t.client ≡ false
    pub server_ip_is : t.server_ip ≡ none
    pub pool_is : t.pool ≡ none
    pub callbacks_is : t.callbacks ≡ no_callbacks
    pub closed_is : l.closed ≡ fds a.socket ++ k.closed

  abbrev pub Ends : Bool × Stream × Kernel → Type 0
  Ends (true, t, l) = (fd : ℕ) × (a.socket ≡ some fd) × Opened fd t l
  Ends (false, t, l) = GivenUp t l

  give_up-GivenUp :
      (t : Stream) (fd : ℤ)
      → t.sock_fd ≡ fd
      → (close_fd fd (destroy_pool t.pool k)).closed ≡ fds a.socket ++ k.closed
      → Ends (give_up (t, k))
  unfolding tcp_client_stream_reset
  give_up-GivenUp t fd e closed = record {
    sock_fd_is = refl;
    client_is = refl;
    server_ip_is = refl;
    pool_is = refl;
    callbacks_is = refl;
    closed_is = ap (λ f. (close_fd f (destroy_pool t.pool k)).closed) e ∙ closed;
  }

  -- Nothing was opened.
  give_up_unopened : (t : Stream) → a.socket ≡ none → t.sock_fd ≡ negsuc 0 → Ends (give_up (t, k))
  give_up_unopened t none_open e =
      give_up-GivenUp t (negsuc 0) e (ap (λ o. fds o ++ k.closed) (sym none_open))

  module _ (fd : ℕ) (open_is : a.socket ≡ some fd) where
    give_up_opened : (t : Stream) → t.sock_fd ≡ pos fd → Ends (give_up (t, k))
    give_up_opened t e = give_up-GivenUp t (pos fd) e (ap (λ o. fds o ++ k.closed) (sym open_is))

    watch-Ends :
        (t : Stream)
        → t.sock_fd ≡ pos fd
        → t.client ≡ true
        → t.server_ip ≡ some text
        → t.port ≡ port
        → t.tcp_state ≡ state_of a.connect
        → Goes t
        → (a.connect ≡ done) ⊎ (a.connect ≡ in_progress)
        → Ends (watch a cbs x fd (t, k))
    watch-Ends t at live name to state goes begun = elim (Bool-cases a.epoll_add) [
      | inl added ↦ simp (added) (
        fd,
        open_is,
        record {
          sock_fd_is = at;
          client_is = live;
          server_ip_is = name;
          port_is = to;
          state_is = state;
          goes = record {
            addr = goes.addr;
            addr_is = goes.addr_is;
            server_addr_is = goes.server_addr_is;
          };
          connect_is = begun;
          callbacks_is = refl;
          kernel_is = refl;
        },
      )
      | inr missed ↦ simp (missed) (give_up_opened t at)
    ]

    on_connect-Ends :
        (c : Connect) (t : Stream)
        → a.connect ≡ c
        → t.sock_fd ≡ pos fd
        → t.client ≡ true
        → t.server_ip ≡ some text
        → t.port ≡ port
        → t.tcp_state ≡ connecting
        → Goes t
        → Ends (on_connect a cbs x fd c (t, k))
    on_connect-Ends done t is at live name to state g =
        watch-Ends _ at live name to (ap state_of (sym is))
          (record { addr = g.addr; addr_is = g.addr_is; server_addr_is = g.server_addr_is })
          (inl is)
    on_connect-Ends in_progress t is at live name to state g =
        watch-Ends t at live name to (state ∙ ap state_of (sym is)) g (inr is)
    on_connect-Ends refused t is at live name to state g = give_up_opened t at

    -- A host that has to be looked up is the one case of undefined behaviour.
    on_address-Ends :
        (t : Stream)
        → (a.gethostbyname text ≡ false) ⊎ ((addr : ℕ) × (a.inet_addr text ≡ some addr))
        → t.sock_fd ≡ pos fd
        → t.client ≡ true
        → t.server_ip ≡ some text
        → t.port ≡ port
        → t.tcp_state ≡ connecting
        → Returns (on_address a cbs x fd text (a.inet_addr text) (t, k)) Ends
    on_address-Ends t known at live name to state = elim (Option-cases (a.inet_addr text)) [
      | inl e ↦ elim known [
        | inl no_host ↦ rw (e, no_host) (give_up_opened _ at)
        | inr (addr, e') ↦ absurd (cc)
      ]
      | inr (addr, e) ↦ rw e (
          on_connect-Ends a.connect _ refl at live name to state (record {
            addr = addr;
            addr_is = e;
            server_addr_is = ap (λ p. some (addr, p % 65536)) to;
          }))
    ]

    -- The name of the server is an address, or no host has it.
    abbrev pub Known : Type 0
    Known = (a.gethostbyname text ≡ false) ⊎ ((addr : ℕ) × (a.inet_addr text ≡ some addr))

    on_name-Ends :
        (r : Option ℕ × Pool) (t : Stream)
        → Known
        → t.sock_fd ≡ pos fd
        → t.client ≡ true
        → Returns (on_name a cbs x fd text port r (t, k)) Ends
    on_name-Ends (none, p) t known at live = give_up_opened _ at
    on_name-Ends (some ptr, p) t known at live = on_address-Ends _ known at live refl refl refl

    on_pool-Ends :
        (p : Option Pool) (t : Stream)
        → Known
        → t.sock_fd ≡ pos fd
        → Returns (on_pool a cbs x fd text port p (t, k)) Ends
    on_pool-Ends none t known at = give_up_opened _ at
    on_pool-Ends (some p) t known at =
        on_name-Ends (alloc a.ip_at p (pos (suc (length text)))) _ known at refl

    on_fd-Ends : (t : Stream) → Known → Returns (on_socket a cbs x text port (some fd) (t, k)) Ends
    on_fd-Ends t known = elim (Bool-cases a.nonblocking) [
      | inl set ↦ simp (set) (on_pool-Ends (create a.page_size a.pool_at) _ known refl)
      | inr unset ↦ simp (unset) (give_up_opened _ refl)
    ]

  on_socket-Ends :
      (o : Option ℕ) (t : Stream)
      → a.socket ≡ o
      → (a.gethostbyname text ≡ false) ⊎ ((addr : ℕ) × (a.inet_addr text ≡ some addr))
      → Returns (on_socket a cbs x text port o (t, k)) Ends
  on_socket-Ends none t e known = give_up_unopened _ e refl
  on_socket-Ends (some fd) t e known = on_fd-Ends fd e t known

  pub init_fields-Ends :
      (t : Stream)
      → (a.gethostbyname text ≡ false) ⊎ ((addr : ℕ) × (a.inet_addr text ≡ some addr))
      → Returns (init_fields a cbs x text port (t, k)) Ends
  unfolding init_fields
  init_fields-Ends t known = on_socket-Ends a.socket t refl known
