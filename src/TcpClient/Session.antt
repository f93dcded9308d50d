-- ===== src/TcpClient/Session.antt =====
-- network/tcp_client.c: any sequence of calls of `tcp_client_add_server`.
use libeasy.Prelude.{
  ℕ, suc, ◌+◌, ◌≡◌, refl, sym, ap, subst, ◌∙◌, Bool, true, false, Option, none, some, List, [], ◌∷◌,
  ◌++◌, arith, ◌⊎◌, inl, inr, length, length-append, Option-cases,
}
use libeasy.Prelude.Fault.{Returns, Returns-bind, Returns-map, ◌>>=◌}
use libeasy.Streams.Chains.{final-Ends}
use libeasy.TcpClient.{Callbacks, Client, get_idle_tcp_client_stream, take_idle}
use libeasy.TcpClient.Connecting.{Answers, add_to, tcp_client_add_server}
use libeasy.TcpClient.Valid.{IsClient}
use libeasy.TcpClient.Added.{AddedOrRefused, tcp_client_add_server-AddedOrRefused}

-- One call: what the system answers during it, and its arguments.
pub record Add : Type 0 where
  pub answers : Answers
  pub callbacks : Callbacks
  pub server : List ℕ
  pub port : ℕ

-- The name of the server is an address, or no host has it.
abbrev pub IsKnown : Add → Type 0
IsKnown a =
    (a.answers.gethostbyname a.server ≡ false)
    ⊎ ((addr : ℕ) × (a.answers.inet_addr a.server ≡ some addr))

abbrev pub AllKnown : List Add → Type 0
AllKnown [] = Unit
AllKnown (a ∷ adds) = IsKnown a × AllKnown adds

unfoldable pub add : Add → Client → Option (Bool × Client)
add a c = tcp_client_add_server a.answers a.callbacks a.server a.port c

-- The calls in turn, each with its answer.
unfoldable pub add_all : List Add → Client → Option (List Bool × Client)
add_all [] c = some ([], c)
add_all (a ∷ adds) c = add a c >>= λ r. add_all adds (r.1) >>= λ more. some (r.0 ∷ more.0, more.1)

-- The number of calls that answered 1.
abbrev pub successes : List Bool → ℕ
successes [] = 0
successes (true ∷ bs) = suc (successes bs)
successes (false ∷ bs) = successes bs

-- A valid client with so many busy and so many idle streams.
pub record Has (busy idle : ℕ) (c : Client) : Type 0 where
  pub busy_list : List ℕ
  pub idle_list : List ℕ
  pub client_is : IsClient c busy_list idle_list
  pub busy_is : length busy_list ≡ busy
  pub idle_is : length idle_list ≡ idle

-- Each answer 1 has taken an idle stream for good, and no other stream was lost or found.
abbrev pub Adds : (busy idle : ℕ) → List Bool × Client → Type 0
Adds busy idle (answers, d) =
    (left : ℕ) × (successes answers + left ≡ idle) × Has (busy + successes answers) left d

one_more : (x : ℕ) (bs : List ℕ) → length (bs ++ x ∷ []) ≡ length bs + 1
one_more x bs = length-append bs (x ∷ [])

-- One call.
added-Adds :
    (a : Add) (c : Client) (x : ℕ) (bs ns : List ℕ) (r : Bool × Client)
    → AddedOrRefused a.answers a.callbacks a.server a.port c x bs ns r
    → Adds (length bs) (length ns + 1) (r.0 ∷ [], r.1)
added-Adds a c x bs ns (true, d) k = (
  length ns,
  omega arith,
  record {
    busy_list = bs ++ x ∷ [];
    idle_list = ns;
    client_is = k.client_is;
    busy_is = one_more x bs;
    idle_is = refl;
  },
)
added-Adds a c x bs ns (false, d) k = (
  length ns + 1,
  omega arith,
  record {
    busy_list = bs;
    idle_list = ns ++ x ∷ [];
    client_is = k.client_is;
    busy_is = omega arith;
    idle_is = one_more x ns;
  },
)

module _ (a : Add) (c : Client) (busy idle : ℕ) (h : Has busy idle c) where
  -- Without an idle stream the call answers 0 and does nothing.
  refused_full : c.idle.tail ≡ none → add a c ≡ some (false, c)
  unfolding add tcp_client_add_server add_to get_idle_tcp_client_stream
  refused_full e = ap (add_to a.answers a.callbacks a.server a.port) (ap (λ o. take_idle o c) e)

  add-last :
      (x : ℕ)
      → IsKnown a
      → c.idle.tail ≡ some x
      → Returns (add a c) (λ r. Adds busy idle (r.0 ∷ [], r.1))
  unfolding add
  add-last x known e =
      let ends = final-Ends x h.idle_list (sym h.client_is.chains.right.tail_is ∙ e) in
      let valid = subst (IsClient c h.busy_list) ends.is h.client_is in
      let free : length ends.before + 1 ≡ idle =
        sym (one_more x ends.before) ∙ ap length (sym ends.is) ∙ h.idle_is in
      Returns-map (tcp_client_add_server a.answers a.callbacks a.server a.port c)
        (AddedOrRefused a.answers a.callbacks a.server a.port c x h.busy_list ends.before)
        (λ r. Adds busy idle (r.0 ∷ [], r.1))
        (tcp_client_add_server-AddedOrRefused a.answers a.callbacks a.server a.port c x h.busy_list
          ends.before valid known)
        (λ r k.
          subst (λ n. Adds busy n (r.0 ∷ [], r.1)) free
            (subst (λ m. Adds m (length ends.before + 1) (r.0 ∷ [], r.1)) h.busy_is
              (added-Adds a c x h.busy_list ends.before r k)))

  add-Adds : IsKnown a → Returns (add a c) (λ r. Adds busy idle (r.0 ∷ [], r.1))
  add-Adds known = elim (Option-cases c.idle.tail) [
    | inl e ↦ rw (refused_full e) (
      idle,
      omega arith,
      record {
        busy_list = h.busy_list;
        idle_list = h.idle_list;
        client_is = h.client_is;
        busy_is = omega (arith, h.busy_is);
        idle_is = h.idle_is;
      },
    )
    | inr (x, e) ↦ add-last x known e
  ]

Adds-cons :
    (busy idle : ℕ) (answer : Bool) (c : Client) (r : List Bool × Client) (left : ℕ)
    → successes (answer ∷ []) + left ≡ idle
    → Adds (busy + successes (answer ∷ [])) left r
    → Adds busy idle (answer ∷ r.0, r.1)
Adds-cons busy idle true c (answers, d) left e (rest, f, h) =
    (rest, omega arith, subst (λ n. Has n rest d) (omega arith) h)
Adds-cons busy idle false c (answers, d) left e (rest, f, h) =
    (rest, omega arith, subst (λ n. Has n rest d) (omega arith) h)

-- On a valid client, whatever the system answers, and where the name of each server is an address or
-- unknown: no sequence of calls of `tcp_client_add_server` meets undefined behaviour, the client stays
-- valid, and every answer 1 has made one of the idle streams a busy one, so that there are never more
-- of them than there were idle streams.
pub add_all-Adds :
    (adds : List Add) (c : Client) (busy idle : ℕ)
    → AllKnown adds
    → Has busy idle c
    → Returns (add_all adds c) (Adds busy idle)
unfolding add_all
add_all-Adds [] c busy idle known h = (
  idle,
  omega arith,
  record {
    busy_list = h.busy_list;
    idle_list = h.idle_list;
    client_is = h.client_is;
    busy_is = omega (arith, h.busy_is);
    idle_is = h.idle_is;
  },
)
add_all-Adds (a ∷ adds) c busy idle known h =
    Returns-bind (add a c) (λ r. add_all adds (r.1) >>= λ more. some (r.0 ∷ more.0, more.1))
      (λ r. Adds busy idle (r.0 ∷ [], r.1)) (Adds busy idle) (add-Adds a c busy idle h (known.0))
      (λ r (left, e, k).
        Returns-bind (add_all adds (r.1)) (λ more. some (r.0 ∷ more.0, more.1))
          (Adds (busy + successes (r.0 ∷ [])) left) (Adds busy idle)
          (add_all-Adds adds (r.1) (busy + successes (r.0 ∷ [])) left (known.1) k)
          (λ more j. Adds-cons busy idle (r.0) (r.1) more left e j))
