-- ===== src/ServerConhash.antt =====
-- server_conhash/server_conhash.c: groups of servers, each with a ring that sends a URL to a server.
mod Keys
pub mod Rings
pub mod Servers
pub mod Groups
mod Tests
use libeasy.Prelude.{
  ℕ, zero, suc, ◌+◌, ◌-◌, Bool, true, false, ◌||◌, Option, none, some, List, [], ◌∷◌, ◌++◌, ◌==◌,
  if◌then◌else◌, length, take,
}
use libeasy.Prelude.Fault.{◌>>=◌}
use libeasy.Prelude.Int.{ℤ, pos, negsuc, ltb_ℤ, pos_part}
use libeasy.Prelude.Text.{decimal}

-- What `conhash_set_node` is given.
pub record Node : Type 0 where
  pub id : ℕ
  pub iden : List ℕ
  pub replicas : ℕ

-- The functions of conhash and of hashmap, for rings `R` and for the maps `C` from a group to its ring
-- and `I` from a key to an address. `conhash_lookup` gives the `iden` of a node, or NULL.
pub record Conhash (R C I : Type 0) : Type 0 where
  pub conhash_init : R
  pub conhash_add_node : R → Node → R
  pub conhash_lookup : R → List ℕ → Option (List ℕ)
  pub new_conhashs : C
  pub add_conhash : C → List ℕ → R → C
  pub find_conhash : C → List ℕ → Option R
  pub new_ips : I
  pub add_ip : I → List ℕ → List ℕ → I
  pub find_ip : I → List ℕ → Option (List ℕ)

-- What the functions of the Lua file answer, where `none` is the pointer NULL of `lua_tostring`.
pub record Script : Type 0 where
  pub group_count : ℤ
  pub group_id : ℕ → ℤ
  pub server_count : ℕ → ℤ
  pub server : (seq n : ℕ) → Option (List ℕ) × Option (List ℕ)

-- Whether there is memory: for the ring of a group, and for the node and the address of a server.
pub record Memory : Type 0 where
  pub ring_of : (seq : ℕ) → Bool
  pub node_of : (seq j : ℕ) → Bool
  pub ip_of : (seq j : ℕ) → Bool

pub record ServerConhash (C I : Type 0) : Type 0 where
  pub conhashs : C
  pub ips : I

-- What `snprintf` leaves in a field of `size` bytes, given `size - 1`.
abbrev pub cut : (size : ℕ) → List ℕ → List ℕ
cut size text = take (size - 2) text

-- `%d`
abbrev pub printed : ℤ → List ℕ
printed (pos n) = decimal n
printed (negsuc n) = b'-' ∷ decimal (suc n)

abbrev pub str_id : (id : ℤ) → List ℕ
str_id id = cut 32 (printed id)

abbrev pub ip_key : (id : ℤ) (iden : List ℕ) → List ℕ
ip_key id iden = cut 64 (printed id ++ b'_' ∷ iden)

-- `get_server_by_seq`; a pointer NULL must not be given to `%s`.
abbrev pub cut_both : Option (List ℕ) × Option (List ℕ) → Option (List ℕ × List ℕ)
cut_both (none, hash_ip) = none
cut_both (some ip, none) = none
cut_both (some ip, some hash_ip) = some (cut 32 ip, cut 32 hash_ip)

unfoldable pub get_server_by_seq : Script → (seq n : ℕ) → Option (List ℕ × List ℕ)
get_server_by_seq s seq n = cut_both (s.server seq n)

module _ {R C I : Type 0} (lib : Conhash R C I) (script : Script) (memory : Memory) where
  -- One round of the loop of `group_server_load`; `some none` is that it returns 0.
  abbrev pub add_server : (seq : ℕ) (id : ℤ) (j : ℕ) → R × I → List ℕ × List ℕ → Option (R × I)
  add_server seq id j (ring, ips) (ip, []) =
      if memory.node_of seq j
      then some (lib.conhash_add_node ring (record { id = j - 1; iden = ip; replicas = 500 }), ips)
      else none
  add_server seq id j (ring, ips) (ip, c ∷ cs) =
      if memory.node_of seq j
      then (if memory.ip_of seq j
          then some (
            lib.conhash_add_node ring (record { id = j - 1; iden = c ∷ cs; replicas = 500 }),
            lib.add_ip ips (ip_key id (c ∷ cs)) ip,
          )
          else none)
      else none

  abbrev pub next_server :
      (R × I → Option (Option (R × I))) → Option (R × I) → Option (Option (R × I))
  next_server more none = some none
  next_server more (some s) = more s

  -- The loop of `group_server_load`, with the rounds that are left.
  unfoldable pub add_servers : (seq : ℕ) (id : ℤ) (rounds j : ℕ) → R × I → Option (Option (R × I))
  add_servers seq id zero j s = some (some s)
  add_servers seq id (suc rounds) j s = get_server_by_seq script seq j >>= λ server.
      next_server (add_servers seq id rounds (suc j)) (add_server seq id j s server)

  unfoldable pub group_server_load : (seq : ℕ) (id : ℤ) → R × I → Option (Option (R × I))
  group_server_load seq id s = add_servers seq id (pos_part (script.server_count seq)) 1 s

  abbrev pub next_group :
      (id : ℤ)
      → C
      → (ServerConhash C I → Option (Option (ServerConhash C I)))
      → Option (R × I)
      → Option (Option (ServerConhash C I))
  next_group id conhashs more none = some none
  next_group id conhashs more (some (ring, ips)) =
      more (record { conhashs = lib.add_conhash conhashs (str_id id) ring; ips = ips })

  abbrev pub is_zero : ℤ → Bool
  is_zero (pos n) = n == 0
  is_zero (negsuc n) = false

  -- The loop of `group_load`.
  unfoldable pub add_groups :
      (rounds i : ℕ) → ServerConhash C I → Option (Option (ServerConhash C I))
  add_groups zero i s = some (some s)
  add_groups (suc rounds) i s =
      let more : ServerConhash C I → Option (Option (ServerConhash C I)) =
        λ t. add_groups rounds (suc i) t in
      let id = script.group_id i in
      if memory.ring_of i
      then (if is_zero id
          then some none
          else (group_server_load i id (lib.conhash_init, s.ips) >>= next_group id s.conhashs more))
      else some none

  unfoldable pub group_load : ServerConhash C I → Option (Option (ServerConhash C I))
  group_load s = add_groups (pos_part script.group_count) 1 s

  -- `server_conhash_create`, on the answers of `malloc`, of `hashmap_new`, twice, and of `luaL_dofile`;
  -- `some none` is the pointer NULL.
  unfoldable pub server_conhash_create :
      (malloc conhashs ips dofile : Bool) → Option (Option (ServerConhash C I))
  server_conhash_create malloc conhashs ips dofile =
      if malloc
      then (if conhashs
          then (if ips
              then (if dofile
                  then group_load (record { conhashs = lib.new_conhashs; ips = lib.new_ips })
                  else some none)
              else some none)
          else some none)
      else some none

module _ {R C I : Type 0} (lib : Conhash R C I) where
  abbrev pub or_iden : (iden : List ℕ) → Option (List ℕ) → List ℕ
  or_iden iden none = iden
  or_iden iden (some ip) = ip

  -- What is found for the node; a node that is NULL is followed.
  abbrev pub ip_of_node : (ips : I) (group_id : ℤ) → Option (List ℕ) → Option (Option (List ℕ))
  ip_of_node ips group_id none = none
  ip_of_node ips group_id (some iden) =
      some (some (or_iden iden (lib.find_ip ips (ip_key group_id iden))))

  abbrev pub in_ring : (ips : I) (group_id : ℤ) (url : List ℕ) → Option R → Option (Option (List ℕ))
  in_ring ips group_id url none = some none
  in_ring ips group_id url (some ring) = ip_of_node ips group_id (lib.conhash_lookup ring url)

  -- `server_conhash_find`; `some none` is that it returns NULL.
  unfoldable pub server_conhash_find :
      Option (ServerConhash C I) → (group_id : ℤ) (url : List ℕ) → Option (Option (List ℕ))
  server_conhash_find none group_id url = some none
  server_conhash_find (some s) group_id url =
      if ltb_ℤ group_id (pos 0) || (length url == 0)
      then some none
      else in_ring s.ips group_id url (lib.find_conhash s.conhashs (str_id group_id))

-- What `server_conhash_destroy` frees: the rings of the one map, the addresses of the other, and the
-- instance.
pub data Freed (C I : Type 0) : Type 0 where
  rings : C → Freed C I
  addresses : I → Freed C I
  instance_itself : Freed C I

unfoldable pub server_conhash_destroy :
    {C I : Type 0} → Option (ServerConhash C I) → List (Freed C I)
server_conhash_destroy none = []
server_conhash_destroy (some s) = rings s.conhashs ∷ addresses s.ips ∷ instance_itself ∷ []
