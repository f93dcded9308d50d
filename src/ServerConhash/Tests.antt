-- ===== src/ServerConhash/Tests.antt =====
-- server_conhash.c: runs, where a ring is the list of its nodes and sends each URL to the last one.
use libeasy.Prelude.{
  ℕ, ◌≡◌, ◌≢◌, sym, ap, ap₂, refl, true, ◌==◌, Option, none, some, List, [], ◌∷◌, if◌then◌else◌,
  ◌<◌, length, inl, inr, ◌⊎◌, Bool-cases, arith,
}
use libeasy.Prelude.Fault.{◌>>=◌}
use libeasy.Prelude.Int.{ℤ, pos, pos_part}
use libeasy.Prelude.Text.{codes, decimal, same_bytes, same_bytes_self}
use libeasy.ServerConhash.Groups.{AreIds, server_conhash_create-server_conhash_find}
use libeasy.ServerConhash.Rings.{IsConhash, Chosen, IsServer}
use libeasy.ServerConhash.{
  Node, Conhash, Script, Memory, ServerConhash, server_conhash_create, server_conhash_find,
  group_load, add_groups, group_server_load, add_servers, get_server_by_seq,
}

abbrev last_iden : List Node → Option (List ℕ)
last_iden [] = none
last_iden (n ∷ ns) = some n.iden

abbrev look_up : {A : Type 0} → List (List ℕ × A) → List ℕ → Option A
look_up [] key = none
look_up ((k, v) ∷ m) key = if same_bytes k key then some v else look_up m key

abbrev listed : Conhash (List Node) (List (List ℕ × List Node)) (List (List ℕ × List ℕ))
listed = record {
  conhash_init = [];
  conhash_add_node = λ r n. n ∷ r;
  conhash_lookup = λ r url. last_iden r;
  new_conhashs = [];
  add_conhash = λ m k r. (k, r) ∷ m;
  find_conhash = look_up;
  new_ips = [];
  add_ip = λ m k ip. (k, ip) ∷ m;
  find_ip = look_up;
}

abbrev plenty : Memory
plenty = record { ring_of = λ i. true; node_of = λ i j. true; ip_of = λ i j. true }

-- One group, 7, with two servers, of which the second has another name in the ring.
abbrev two : Script
two = record {
  group_count = pos 1;
  group_id = λ i. pos 7;
  server_count = λ i. pos 2;
  server = λ i n.
      if n == 1
      then (some (codes "10.0.0.1"), some [])
      else (some (codes "10.0.0.2"), some (codes "b"));
}

abbrev found :
    Option (Option (ServerConhash (List (List ℕ × List Node)) (List (List ℕ × List ℕ))))
    → ℤ
    → Option (Option (List ℕ))
found s group_id = s >>= λ t. server_conhash_find listed t group_id (codes "/a")

find_test :
    found (server_conhash_create listed two plenty true true true true) (pos 7)
    ≡ some (some (codes "10.0.0.2"))
unfolding server_conhash_create group_load add_groups group_server_load add_servers
    get_server_by_seq server_conhash_find decimal
find_test = refl

other_test : found (server_conhash_create listed two plenty true true true true) (pos 8) ≡ some none
unfolding server_conhash_create group_load add_groups group_server_load add_servers
    get_server_by_seq server_conhash_find decimal
other_test = refl

-- A group without servers has an empty ring, and the node NULL that it gives is followed.
empty_test :
    found
      (server_conhash_create listed
        (record two { server_count = λ i. pos 0 })
        plenty
        true
        true
        true
        true)
      (pos 7)
    ≡ none
unfolding server_conhash_create group_load add_groups group_server_load add_servers
    get_server_by_seq server_conhash_find decimal
empty_test = refl

last-Chosen : (r : List Node) (url : List ℕ) → 0 < length r → Chosen listed (λ nodes. nodes) r url
last-Chosen [] url h = absurd (omega arith)
last-Chosen (n ∷ ns) url h = record { node = n; in_nodes = inl refl; looked_up = refl }

look_up-added :
    {A : Type 0} (m : List (List ℕ × A)) (key : List ℕ) (v : A)
    → look_up ((key, v) ∷ m) key ≡ some v
look_up-added m key v = rw (same_bytes_self key) refl

same_bytes-eq : (xs ys : List ℕ) → same_bytes xs ys ≡ true → xs ≡ ys
same_bytes-eq [] [] h = refl
same_bytes-eq [] (y ∷ ys) h = absurd (cc)
same_bytes-eq (x ∷ xs) [] h = absurd (cc)
same_bytes-eq (x ∷ xs) (y ∷ ys) h =
    let first : x ≡ y = ground arith in
    ap₂ (λ c cs. c ∷ cs) first (same_bytes-eq xs ys (ground arith))

look_up-kept :
    {A : Type 0} (m : List (List ℕ × A)) (key : List ℕ) (v : A) (other : List ℕ)
    → (look_up ((key, v) ∷ m) other ≡ some v) ⊎ (look_up ((key, v) ∷ m) other ≡ look_up m other)
look_up-kept m key v other = elim (Bool-cases (same_bytes key other)) [
  | inl same ↦ inl (rw same refl)
  | inr apart ↦ inr (rw apart refl)
]

look_up-apart :
    {A : Type 0} (m : List (List ℕ × A)) (key : List ℕ) (v : A) (other : List ℕ)
    → other ≢ key
    → look_up ((key, v) ∷ m) other ≡ look_up m other
look_up-apart m key v other ne = elim (Bool-cases (same_bytes key other)) [
  | inl same ↦ absurd (ne (sym (same_bytes-eq key other same)))
  | inr apart ↦ rw apart refl
]

listed-IsConhash : IsConhash listed
listed-IsConhash = record {
  nodes = λ r. r;
  nodes_init = refl;
  nodes_add = λ r n. refl;
  lookup_node = last-Chosen;
  no_conhash = λ key. refl;
  no_ip = λ key. refl;
  find_added = λ m key r new. look_up-added m key r;
  conhash_apart = look_up-apart;
  ip_apart = look_up-apart;
  ip_added = λ m key ip new. look_up-added m key ip;
  ip_kept = look_up-kept;
}

-- Two groups, 1 and 2, with the servers of `two`.
abbrev two_nodes : List Node
two_nodes =
    record { id = 1; iden = codes "b"; replicas = 500 }
    ∷ record { id = 0; iden = codes "10.0.0.1"; replicas = 500 }
    ∷ []

abbrev groups : Script
groups = record two { group_count = pos 2; group_id = λ i. pos i }

groups-AreIds : AreIds groups
groups-AreIds = record {
  ints = λ i hi hi'. omega arith;
  distinct = λ i j hi hi' hj hj' e. ap pos_part e;
}

abbrev servers : ServerConhash (List (List ℕ × List Node)) (List (List ℕ × List ℕ))
servers = record {
  conhashs = (codes "2", two_nodes) ∷ (codes "1", two_nodes) ∷ [];
  ips = (codes "2_b", codes "10.0.0.2") ∷ (codes "1_b", codes "10.0.0.2") ∷ [];
}

create_test : server_conhash_create listed groups plenty true true true true ≡ some (some servers)
unfolding server_conhash_create group_load add_groups group_server_load add_servers
    get_server_by_seq decimal
create_test = refl

server_conhash_create-server_conhash_find_example :
    (ip : List ℕ) × (server_conhash_find listed (some servers) (pos 1) (codes "/a")
      ≡ some (some ip))
    × IsServer groups 1 ip
server_conhash_create-server_conhash_find_example =
    server_conhash_create-server_conhash_find listed listed-IsConhash groups plenty groups-AreIds
      servers 1 1 (codes "/a") create_test (omega arith) (omega arith) refl (omega arith)
      (omega arith)
