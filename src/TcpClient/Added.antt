-- ===== src/TcpClient/Added.antt =====
-- network/tcp_client.c: a server that is added takes the last idle stream, or leaves it idle.
use libeasy.Prelude.{
  ℕ, ◌≡◌, sym, ap, subst, ◌∙◌, true, false, Bool, some, List, [], ◌∷◌, ◌++◌, arith, ◌==◌, ◌⊎◌,
}
use libeasy.Prelude.Fault.{Returns, Returns-bind}
use libeasy.Prelude.Maps.{update, update_self, update_ne, has-append}
use libeasy.TcpServer.{Kernel}
use libeasy.Streams.Chains.{final-last}
use libeasy.Streams.Move.{add-AreChains}
use libeasy.TcpClient.{
  Stream, Client, Callbacks, no_links, delete_stream_from_idle_list, take_idle,
  get_idle_tcp_client_stream,
}
use libeasy.TcpClient.Connecting.{
  Answers, init_fields, put_back, tcp_client_stream_init, end_add, add_to, tcp_client_add_server,
}
use libeasy.TcpClient.Valid.{
  IsClient, Taken, delete_stream_from_idle_list-Taken, clear-AreChains, busy-AreChains,
}
use libeasy.TcpClient.Init.{Ends, Opened, GivenUp, init_fields-Ends}

module _ (a : Answers) (cbs : Callbacks) (text : List ℕ) (port : ℕ) (c : Client) (x : ℕ)
    (bs ns : List ℕ) where
  -- The stream is the last busy one, connects to the server and is watched.
  pub record Added (d : Client) : Type 0 where
    pub client_is : IsClient d (bs ++ x ∷ []) ns
    pub fd : ℕ
    pub socket_is : a.socket ≡ some fd
    pub opened : Opened a cbs x text port c.kernel fd (d.streams x) d.kernel
    pub others : (b : ℕ) → (x == b) ≡ false → d.streams b ≡ c.streams b

  -- The stream is the last idle one again, and its descriptor was closed.
  pub record Refused (d : Client) : Type 0 where
    pub client_is : IsClient d bs (ns ++ x ∷ [])
    pub given_up : GivenUp a cbs x text port c.kernel (d.streams x) d.kernel
    pub others : (b : ℕ) → (x == b) ≡ false → d.streams b ≡ c.streams b

  abbrev pub AddedOrRefused : Bool × Client → Type 0
  AddedOrRefused (true, d) = Added d
  AddedOrRefused (false, d) = Refused d

  module _ (i : IsClient c bs (ns ++ x ∷ [])) where
    abbrev taken : Client
    taken = delete_stream_from_idle_list x c

    is_taken : Taken c taken x bs ns
    is_taken = delete_stream_from_idle_list-Taken c x bs ns i

    got : get_idle_tcp_client_stream c ≡ (some x, taken)
    unfolding get_idle_tcp_client_stream
    got = ap (λ o. take_idle o c) (i.chains.right.tail_is ∙ final-last ns x)

    end_add-AddedOrRefused :
        (r : Bool × Stream × Kernel)
        → Ends a cbs x text port c.kernel r
        → AddedOrRefused (end_add a cbs x (put_back a cbs x taken r))
    end_add-AddedOrRefused (true, t, l) (fd, open_is, opened) = record {
      client_is = record {
        chains = busy-AreChains taken x bs ns is_taken.chains is_taken.no_busy is_taken.no_idle;
        all = λ b. ground (arith, has-append b bs (x ∷ []), has-append b ns (x ∷ []), i.all b);
      };
      fd = fd;
      socket_is = open_is;
      opened =
          subst (λ s. Opened a cbs x text port c.kernel fd s l) (sym (update_self c.streams x t))
            opened;
      others = λ b ne. update_ne c.streams x t b ne;
    }
    end_add-AddedOrRefused (false, t, l) given = record {
      client_is = record {
        chains =
            add-AreChains (update taken.links x no_links) taken.busy taken.idle bs ns x
              (clear-AreChains taken.links taken.busy taken.idle bs ns x is_taken.chains
                is_taken.no_busy is_taken.no_idle)
              is_taken.no_busy is_taken.no_idle;
        all = i.all;
      };
      given_up =
          subst (λ s. GivenUp a cbs x text port c.kernel s l) (sym (update_self c.streams x t))
            given;
      others = λ b ne. update_ne c.streams x t b ne;
    }

    -- Adding a server to a valid client with an idle stream meets no undefined behaviour where the name
    -- of the server is an address or unknown. Where it answers 1 the stream is the last busy one, connects
    -- to the address that the name reads as and to the port, was not refused and is watched, and where it answers 0 the stream is the last idle one again
    -- and its descriptor was closed; the client stays valid and no other stream changes.
    pub tcp_client_add_server-AddedOrRefused :
        (a.gethostbyname text ≡ false) ⊎ ((addr : ℕ) × (a.inet_addr text ≡ some addr))
        → Returns (tcp_client_add_server a cbs text port c) AddedOrRefused
    unfolding tcp_client_add_server add_to tcp_client_stream_init
    tcp_client_add_server-AddedOrRefused known =
        subst (λ g. Returns (add_to a cbs text port g) AddedOrRefused) (sym got)
          (Returns-bind (tcp_client_stream_init a cbs x text port taken) _
            (λ r. AddedOrRefused (end_add a cbs x r)) AddedOrRefused
            (Returns-bind (init_fields a cbs x text port (c.streams x, c.kernel)) _
              (Ends a cbs x text port c.kernel) (λ r. AddedOrRefused (end_add a cbs x r))
              (init_fields-Ends a cbs x text port c.kernel (c.streams x) known)
              end_add-AddedOrRefused)
            (λ r h. h))
