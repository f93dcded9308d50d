-- ===== src/ServerConhash/Servers.antt =====
-- server_conhash.c: what is found for a group is the address of one of its servers.
use libeasy.Prelude.{
  ℕ, zero, suc, ◌+◌, ◌≤◌, ◌<◌, ◌≡◌, ◌≢◌, refl, sym, ap, ◌∙◌, false, Bool-cases, Option, none, some,
  List, [], ◌∷◌, arith, length, ◌⊎◌, inl, inr, ◌==◌, subst,
}
use libeasy.Prelude.Int.{ℤ, pos, pos_part, ltb_ℤ}
use libeasy.ServerConhash.{
  Node, Conhash, Script, Memory, ServerConhash, ip_key, str_id, add_server, next_server,
  add_servers, get_server_by_seq, group_server_load, server_conhash_find, in_ring, ip_of_node,
  or_iden,
}
use libeasy.ServerConhash.Rings.{IsIn, IsConhash, IsServer, Loaded, AllLoaded, AllLoaded-bind}

module _ {R C I : Type 0} (lib : Conhash R C I) (is : IsConhash lib) (script : Script)
    (memory : Memory) (seq : ℕ) (id : ℤ) (before : I) where
  -- A node stands for a server of the group, by its `iden` or by what is found for that.
  abbrev pub Stands : I → List ℕ → Type 0
  Stands ips iden =
      IsServer script seq iden ⊎ ((v : List ℕ) × (lib.find_ip ips (ip_key id iden) ≡ some v))

  -- The state in front of round `j`.
  pub record Sends (j : ℕ) (ring : R) (ips : I) : Type 0 where
    pub found :
        (iden v : List ℕ) → lib.find_ip ips (ip_key id iden) ≡ some v → IsServer script seq v
    pub stands : (n : Node) → IsIn n (is.nodes ring) → Stands ips n.iden
    pub many : suc (length (is.nodes ring)) ≡ j

  -- No other key leads to something else than before.
  abbrev pub Others : I → Type 0
  Others ips =
      (key : List ℕ)
      → ((iden : List ℕ) → key ≢ ip_key id iden)
      → lib.find_ip ips key ≡ lib.find_ip before key

  abbrev pub SendsBoth : ℕ → R × I → Type 0
  SendsBoth j (ring, ips) = Sends j ring ips × Others ips

  Stands-conhash_add_node :
      (ips : I) (ring : R) (n : Node)
      → Stands ips n.iden
      → ((m : Node) → IsIn m (is.nodes ring) → Stands ips m.iden)
      → (m : Node) → IsIn m (is.nodes (lib.conhash_add_node ring n))
      → Stands ips m.iden
  Stands-conhash_add_node ips ring n new old m i =
      elim (subst (λ ns. IsIn m ns) (is.nodes_add ring n) i) [
        | inl same ↦ subst (λ x. Stands ips x.iden) (sym same) new
        | inr there ↦ old m there
      ]

  -- What is found for a key once an address of a server was added.
  IsServer-add_ip :
      (ips : I) (key ip : List ℕ)
      → IsServer script seq ip
      → ((iden v : List ℕ) → lib.find_ip ips (ip_key id iden) ≡ some v → IsServer script seq v)
      → (iden v : List ℕ) → lib.find_ip (lib.add_ip ips key ip) (ip_key id iden) ≡ some v
      → IsServer script seq v
  IsServer-add_ip ips key ip server old iden v h = elim (is.ip_kept ips key ip (ip_key id iden)) [
    | inl new ↦ let same : ip ≡ v = cc in subst (λ x. IsServer script seq x) same server
    | inr kept ↦ old iden v (sym kept ∙ h)
  ]

  Stands-add_ip :
      (ips : I) (key ip : List ℕ) (iden : List ℕ)
      → Stands ips iden
      → Stands (lib.add_ip ips key ip) iden
  Stands-add_ip ips key ip iden (inl server) = inl server
  Stands-add_ip ips key ip iden (inr (v, h)) = elim (is.ip_kept ips key ip (ip_key id iden)) [
    | inl new ↦ inr (ip, new)
    | inr kept ↦ inr (v, kept ∙ h)
  ]

  Stands-ip_key :
      (ips : I) (ip iden : List ℕ) (before : Option (List ℕ))
      → lib.find_ip ips (ip_key id iden) ≡ before
      → Stands (lib.add_ip ips (ip_key id iden) ip) iden
  Stands-ip_key ips ip iden none h = inr (ip, is.ip_added ips (ip_key id iden) ip h)
  Stands-ip_key ips ip iden (some v) h = Stands-add_ip ips (ip_key id iden) ip iden (inr (v, h))

  many_then :
      (j : ℕ) (ring : R) (n : Node)
      → suc (length (is.nodes ring)) ≡ j
      → suc (length (is.nodes (lib.conhash_add_node ring n))) ≡ suc j
  many_then j ring n h = ap suc (ap length (is.nodes_add ring n) ∙ h)

  add_server-Sends :
      (j : ℕ) (s : R × I) (ip hash_ip : List ℕ)
      → IsServer script seq ip
      → SendsBoth j s
      → Loaded (SendsBoth (suc j)) (add_server lib script memory seq id j s (ip, hash_ip))
  add_server-Sends j (ring, ips) ip [] server (sends, others) =
      elim (Bool-cases (memory.node_of seq j)) [
        | inl room ↦ simp (room) (
          record {
            found = sends.found;
            stands = Stands-conhash_add_node ips ring _ (inl server) sends.stands;
            many = many_then j ring _ sends.many;
          },
          others,
        )
        | inr full ↦ simp (full) tt
      ]
  add_server-Sends j (ring, ips) ip (c ∷ cs) server (sends, others) =
      elim (Bool-cases (memory.node_of seq j)) [
        | inl room ↦ elim (Bool-cases (memory.ip_of seq j)) [
          | inl more_room ↦
              simp (room, more_room)
                (
                  record {
                    found = IsServer-add_ip ips _ ip server sends.found;
                    stands =
                        Stands-conhash_add_node (lib.add_ip ips (ip_key id (c ∷ cs)) ip) ring _
                          (Stands-ip_key ips ip (c ∷ cs) _ refl)
                          (λ m i. Stands-add_ip ips _ ip m.iden (sends.stands m i));
                    many = many_then j ring _ sends.many;
                  },
                  λ key away. is.ip_apart ips _ ip key (away (c ∷ cs)) ∙ others key away,
                )
          | inr full ↦ simp (room, full) tt
        ]
        | inr full ↦ simp (full) tt
      ]

  next_server-Sends :
      (j : ℕ) (more : R × I → Option (Option (R × I))) (m : Option (R × I)) (P : R × I → Type 0)
      → Loaded (SendsBoth j) m
      → ((s : R × I) → SendsBoth j s → AllLoaded P (more s))
      → AllLoaded P (next_server lib script memory more m)
  next_server-Sends j more none P h k = tt
  next_server-Sends j more (some s) P h k = k s h

  add_servers-Sends :
      (rounds j : ℕ) (s : R × I)
      → 1 ≤ j
      → rounds + j ≡ suc (pos_part (script.server_count seq))
      → SendsBoth j s
      → AllLoaded
          (SendsBoth (suc (pos_part (script.server_count seq))))
          (add_servers lib script memory seq id rounds j s)
  unfolding add_servers
  add_servers-Sends zero j s first all sends =
      let end : j ≡ suc (pos_part (script.server_count seq)) = omega (arith, all) in
      subst (λ n. SendsBoth n s) end sends
  add_servers-Sends (suc rounds) j s first all sends =
      AllLoaded-bind (get_server_by_seq script seq j) _ _ (λ (ip, hash_ip) answered.
        next_server-Sends (suc j) _ (add_server lib script memory seq id j s (ip, hash_ip)) _
          (add_server-Sends j s ip hash_ip
            (record {
              n = j;
              hash_ip = hash_ip;
              first = first;
              last = omega (arith, all);
              answered = answered;
            })
            sends)
          (λ t then. add_servers-Sends rounds (suc j) t (omega arith) (omega (arith, all)) then))

  pub group_server_load-Sends :
      ((iden : List ℕ) → lib.find_ip before (ip_key id iden) ≡ none)
      → AllLoaded
          (SendsBoth (suc (pos_part (script.server_count seq))))
          (group_server_load lib script memory seq id (lib.conhash_init, before))
  unfolding group_server_load
  group_server_load-Sends fresh =
      add_servers-Sends (pos_part (script.server_count seq)) 1 (lib.conhash_init, before)
        (omega arith) (omega arith)
        (
          record {
            found = λ iden v h. let none_found = fresh iden in absurd (cc);
            stands = λ n i. absurd (subst (λ ns. IsIn n ns) is.nodes_init i);
            many = ap suc (ap length is.nodes_init);
          },
          λ key away. refl,
        )

  IsServer-or_iden :
      (ips : I) (iden : List ℕ) (before : Option (List ℕ))
      → lib.find_ip ips (ip_key id iden) ≡ before
      → ((v : List ℕ) → lib.find_ip ips (ip_key id iden) ≡ some v → IsServer script seq v)
      → Stands ips iden
      → IsServer script seq (or_iden lib iden before)
  IsServer-or_iden ips iden (some v) h found stands = found v h
  IsServer-or_iden ips iden none h found (inl server) = server
  IsServer-or_iden ips iden none h found (inr (v, e)) = absurd (cc)

  in_ring-IsServer :
      (j : ℕ) (ring : R) (ips : I) (url : List ℕ)
      → 1 < j
      → Sends j ring ips
      → (ip : List ℕ) × (in_ring lib ips id url (some ring) ≡ some (some ip))
        × IsServer script seq ip
  in_ring-IsServer j ring ips url h sends =
      let chosen = is.lookup_node ring url (omega (arith, sends.many)) in
      let iden = chosen.node.iden in
      (
        or_iden lib iden (lib.find_ip ips (ip_key id iden)),
        ap (ip_of_node lib ips id) chosen.looked_up,
        IsServer-or_iden ips iden _ refl (sends.found iden)
            (sends.stands chosen.node chosen.in_nodes),
      )

  -- A URL that is not empty leads to a server of a group whose ring is found.
  pub server_conhash_find-Sends :
      (j n : ℕ) (ring : R) (s : ServerConhash C I) (url : List ℕ)
      → id ≡ pos n
      → 1 < j
      → 0 < length url
      → lib.find_conhash s.conhashs (str_id id) ≡ some ring
      → Sends j ring s.ips
      → (ip : List ℕ) × (server_conhash_find lib (some s) (pos n) url ≡ some (some ip))
        × IsServer script seq ip
  unfolding server_conhash_find
  server_conhash_find-Sends j n ring s url is_id some_server some_url known sends =
      let (ip, e, server) = in_ring-IsServer j ring s.ips url some_server sends in
      let url_known : (length url == 0) ≡ false = ground arith in
      let not_less : ltb_ℤ (pos n) (pos 0) ≡ false = ground arith in
      let known_n = subst (λ i. lib.find_conhash s.conhashs (str_id i) ≡ some ring) is_id known in
      let e_n = subst (λ i. in_ring lib s.ips i url (some ring) ≡ some (some ip)) is_id e in
      (ip, simp (not_less, url_known, known_n) e_n, server)
