-- ===== src/ServerConhash/Groups.antt =====
-- server_conhash.c: all groups that a script lists are loaded, and found by their ids.
use libeasy.Prelude.{
  ℕ, zero, suc, ◌+◌, ◌≤◌, ◌<◌, ◌≡◌, ◌≢◌, sym, ◌∙◌, subst, true, false, Bool-cases, inl, inr, Option,
  none, some, List, arith, length, ◌==◌,
}
use libeasy.Prelude.Fault.{◌>>=◌}
use libeasy.Prelude.Int.{ℤ, pos, pos_part}
use libeasy.ServerConhash.{
  Conhash, Script, Memory, ServerConhash, ip_key, str_id, next_group, is_zero, add_groups,
  group_server_load, group_load, server_conhash_create, server_conhash_find,
}
use libeasy.ServerConhash.Keys.{IsSmall, ip_key_apart, str_id_apart}
use libeasy.ServerConhash.Rings.{IsConhash, IsServer, Loaded, AllLoaded, AllLoaded-bind}
use libeasy.ServerConhash.Servers.{
  Sends, SendsBoth, group_server_load-Sends, server_conhash_find-Sends,
}

-- The ids of the groups are those of different ints.
pub record AreIds (script : Script) : Type 0 where
  pub ints : (i : ℕ) → 1 ≤ i → i ≤ pos_part script.group_count → IsSmall (script.group_id i)
  pub distinct :
      (i j : ℕ)
      → 1 ≤ i
      → i ≤ pos_part script.group_count
      → 1 ≤ j
      → j ≤ pos_part script.group_count
      → script.group_id i ≡ script.group_id j
      → i ≡ j

module _ {R C I : Type 0} (lib : Conhash R C I) (is : IsConhash lib) (script : Script)
    (memory : Memory) (ids : AreIds script) where
  abbrev count : ℕ
  count = pos_part script.group_count

  abbrev id_of : ℕ → ℤ
  id_of = script.group_id

  abbrev end_of : ℕ → ℕ
  end_of i = suc (pos_part (script.server_count i))

  -- The ring of the group is found under its id, and sends to its servers.
  record GroupOf (k : ℕ) (s : ServerConhash C I) : Type 0 where
    ring : R
    before : I
    found : lib.find_conhash s.conhashs (str_id (id_of k)) ≡ some ring
    sends : Sends lib is script memory k (id_of k) before (end_of k) ring s.ips

  -- The groups in front of the i-th are loaded, and nothing is known of the others.
  record AreGroups (i : ℕ) (s : ServerConhash C I) : Type 0 where
    loaded : (k : ℕ) → 1 ≤ k → k < i → GroupOf k s
    new_ip :
        (k : ℕ)
        → i ≤ k
        → k ≤ count
        → (iden : List ℕ) → lib.find_ip s.ips (ip_key (id_of k) iden) ≡ none
    new_id : (k : ℕ) → i ≤ k → k ≤ count → lib.find_conhash s.conhashs (str_id (id_of k)) ≡ none

  apart : (i k : ℕ) → 1 ≤ i → i ≤ count → 1 ≤ k → k ≤ count → (i == k) ≡ false → id_of k ≢ id_of i
  apart i k hi hi' hk hk' ne e = absurd (ground (arith, ids.distinct k i hk hk' hi hi' e))

  -- Keys that lead to the same as before leave a group.
  Sends-frame :
      (k : ℕ) (id : ℤ) (before ips now : I) (j : ℕ) (ring : R)
      → Sends lib is script memory k id before j ring ips
      → ((iden : List ℕ) → lib.find_ip now (ip_key id iden) ≡ lib.find_ip ips (ip_key id iden))
      → Sends lib is script memory k id before j ring now
  Sends-frame k id before ips now j ring sends same = record {
    found = λ iden v h. sends.found iden v (sym (same iden) ∙ h);
    stands = λ n i. elim (sends.stands n i) [
      | inl server ↦ inl server
      | inr (v, h) ↦ inr (v, same n.iden ∙ h)
    ];
    many = sends.many;
  }

  module _ (i : ℕ) (s : ServerConhash C I) (first : 1 ≤ i) (last : i ≤ count)
      (before : AreGroups i s) where
    abbrev added : R → I → ServerConhash C I
    added ring ips = record {
      conhashs = lib.add_conhash s.conhashs (str_id (id_of i)) ring;
      ips = ips;
    }

    kept_ip :
        (ring : R) (ips : I)
        → SendsBoth lib is script memory i (id_of i) s.ips (end_of i) (ring, ips)
        → (k : ℕ) → 1 ≤ k
        → k ≤ count
        → (i == k) ≡ false
        → (iden : List ℕ)
        → lib.find_ip ips (ip_key (id_of k) iden) ≡ lib.find_ip s.ips (ip_key (id_of k) iden)
    kept_ip ring ips (sends, others) k hk hk' ne iden = others (ip_key (id_of k) iden) (λ other.
        ip_key_apart (id_of k) (id_of i) iden other (ids.ints k hk hk') (ids.ints i first last)
          (apart i k first last hk hk' ne))

    kept_id :
        (ring : R) (k : ℕ)
        → 1 ≤ k
        → k ≤ count
        → (i == k) ≡ false
        → lib.find_conhash (lib.add_conhash s.conhashs (str_id (id_of i)) ring) (str_id (id_of k))
          ≡ lib.find_conhash s.conhashs (str_id (id_of k))
    kept_id ring k hk hk' ne =
        is.conhash_apart s.conhashs (str_id (id_of i)) ring (str_id (id_of k)) (
          str_id_apart (id_of k) (id_of i) (ids.ints k hk hk') (ids.ints i first last)
            (apart i k first last hk hk' ne))

    added-AreGroups :
        (ring : R) (ips : I)
        → SendsBoth lib is script memory i (id_of i) s.ips (end_of i) (ring, ips)
        → AreGroups (suc i) (added ring ips)
    added-AreGroups ring ips both = record {
      loaded = λ k hk hk'. elim (Bool-cases (i == k)) [
        | inl hit ↦
            let same : i ≡ k = ground arith in
            subst (λ j. GroupOf j (added ring ips)) same
              (record {
                ring = ring;
                before = s.ips;
                found =
                    is.find_added s.conhashs (str_id (id_of i)) ring
                      (before.new_id i (omega arith) last);
                sends = both.0;
              })
        | inr miss ↦
            let low : k < i = ground arith in
            let high : k ≤ count = omega arith in
            let old = before.loaded k hk low in
            record {
              ring = old.ring;
              before = old.before;
              found = kept_id ring k hk high miss ∙ old.found;
              sends =
                  Sends-frame k (id_of k) old.before s.ips ips (end_of k) old.ring old.sends
                    (kept_ip ring ips both k hk high miss);
            }
      ];
      new_ip = λ k hk hk' iden.
          let miss : (i == k) ≡ false = ground arith in
          kept_ip ring ips both k (omega arith) hk' miss iden
          ∙ before.new_ip k (omega arith) hk' iden;
      new_id = λ k hk hk'.
          let miss : (i == k) ≡ false = ground arith in
          kept_id ring k (omega arith) hk' miss ∙ before.new_id k (omega arith) hk';
    }

  next_group-AreGroups :
      (id : ℤ) (conhashs : C) (more : ServerConhash C I → Option (Option (ServerConhash C I)))
      (m : Option (R × I)) (P : ServerConhash C I → Type 0)
      → Loaded
          (λ (r, ips).
            AllLoaded P
              (more (record { conhashs = lib.add_conhash conhashs (str_id id) r; ips = ips })))
          m
      → AllLoaded P (next_group lib script memory id conhashs more m)
  next_group-AreGroups id conhashs more none P h = tt
  next_group-AreGroups id conhashs more (some (ring, ips)) P h = h

  Loaded-map :
      {S : Type 0} (m : Option S) (P Q : S → Type 0)
      → Loaded P m
      → ((s : S) → P s → Q s)
      → Loaded Q m
  Loaded-map none P Q h k = tt
  Loaded-map (some s) P Q h k = k s h

  add_groups-AreGroups :
      (rounds i : ℕ) (s : ServerConhash C I)
      → 1 ≤ i
      → rounds + i ≡ suc count
      → AreGroups i s
      → AllLoaded (AreGroups (suc count)) (add_groups lib script memory rounds i s)
  unfolding add_groups
  add_groups-AreGroups zero i s first all groups =
      let end : i ≡ suc count = omega (arith, all) in subst (λ n. AreGroups n s) end groups
  add_groups-AreGroups (suc rounds) i s first all groups =
      let last : i ≤ count = omega (arith, all) in
      let rest = λ (t : ServerConhash C I) (g : AreGroups (suc i) t).
        add_groups-AreGroups rounds (suc i) t (omega arith) (omega (arith, all)) g in
      let more : ServerConhash C I → Option (Option (ServerConhash C I)) =
        λ t. add_groups lib script memory rounds (suc i) t in
      let both = SendsBoth lib is script memory i (id_of i) s.ips (end_of i) in
      let load = group_server_load lib script memory i (id_of i) (lib.conhash_init, s.ips) in
      let sends =
        group_server_load-Sends lib is script memory i (id_of i) s.ips
          (groups.new_ip i (omega arith) last) in
      let one : AllLoaded (AreGroups (suc count))
          (load >>= next_group lib script memory (id_of i) s.conhashs more) =
        AllLoaded-bind load (next_group lib script memory (id_of i) s.conhashs more)
          (AreGroups (suc count))
          (λ m e. next_group-AreGroups (id_of i) s.conhashs more m (AreGroups (suc count)) (
            Loaded-map m both _ (subst (AllLoaded both) e sends)
              (λ (ring, ips) b. rest _ (added-AreGroups i s first last groups ring ips b)))) in
      elim (Bool-cases (memory.ring_of i)) [
        | inl room ↦ elim (Bool-cases (is_zero lib script memory (id_of i))) [
          | inl nil ↦ simp (room, nil) tt
          | inr given ↦ simp (room, given) one
        ]
        | inr full ↦ simp (full) tt
      ]

  fresh-AreGroups : AreGroups 1 (record { conhashs = lib.new_conhashs; ips = lib.new_ips })
  fresh-AreGroups = record {
    loaded = λ k hk hk'. absurd (omega arith);
    new_ip = λ k hk hk' iden. is.no_ip (ip_key (id_of k) iden);
    new_id = λ k hk hk'. is.no_conhash (str_id (id_of k));
  }

  create-AreGroups :
      AllLoaded
        (AreGroups (suc count))
        (server_conhash_create lib script memory true true true true)
  unfolding server_conhash_create group_load
  create-AreGroups =
      add_groups-AreGroups count 1 (record { conhashs = lib.new_conhashs; ips = lib.new_ips })
        (omega arith) (omega arith) fresh-AreGroups

  -- Once `server_conhash_create` has loaded groups with different ids, a URL that is not empty leads for
  -- each group with a server, whose id is not negative, to the address of one of its servers. There
  -- is memory, the Lua file runs, a lookup in a ring gives one of its nodes, and the maps find what was
  -- added under new keys.
  pub server_conhash_create-server_conhash_find :
      (s : ServerConhash C I) (k n : ℕ) (url : List ℕ)
      → server_conhash_create lib script memory true true true true ≡ some (some s)
      → 1 ≤ k
      → k ≤ pos_part script.group_count
      → script.group_id k ≡ pos n
      → 0 < pos_part (script.server_count k)
      → 0 < length url
      → (ip : List ℕ) × (server_conhash_find lib (some s) (pos n) url ≡ some (some ip))
        × IsServer script k ip
  server_conhash_create-server_conhash_find s k n url made hk hk' is_id some_server some_url =
      let groups = subst (AllLoaded (AreGroups (suc count))) made create-AreGroups in
      let g = groups.loaded k hk (omega arith) in
      server_conhash_find-Sends lib is script memory k (id_of k) g.before (end_of k) n g.ring s url
        is_id (omega arith) some_url g.found g.sends
