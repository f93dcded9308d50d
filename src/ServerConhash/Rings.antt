-- ===== src/ServerConhash/Rings.antt =====
-- server_conhash.c: what is relied on of conhash and of hashmap, and what a load gives.
use libeasy.Prelude.{ℕ, ◌≤◌, ◌<◌, ◌≡◌, ◌≢◌, refl, Option, none, some, List, [], ◌∷◌, length, ◌⊎◌}
use libeasy.Prelude.Fault.{◌>>=◌}
use libeasy.Prelude.Int.{pos_part}
use libeasy.ServerConhash.{Node, Conhash, Script, get_server_by_seq}

abbrev pub IsIn : Node → List Node → Type 0
IsIn n [] = ⊥
IsIn n (m ∷ ms) = (n ≡ m) ⊎ IsIn n ms

-- The node that a ring gives for a URL.
pub record Chosen {R C I : Type 0} (lib : Conhash R C I) (nodes : R → List Node) (r : R)
    (url : List ℕ) : Type 0 where
  pub node : Node
  pub in_nodes : IsIn node (nodes r)
  pub looked_up : lib.conhash_lookup r url ≡ some node.iden

-- What is relied on of conhash and of hashmap: a lookup gives the `iden` of a node of the ring, unless
-- it is empty; a new map is empty; a new key is found with what was added for it; and adding changes what is found for
-- this key at most to what was added, and for no other.
pub record IsConhash {R C I : Type 0} (lib : Conhash R C I) : Type 0 where
  pub nodes : R → List Node
  pub nodes_init : nodes lib.conhash_init ≡ []
  pub nodes_add : (r : R) (n : Node) → nodes (lib.conhash_add_node r n) ≡ n ∷ nodes r
  pub lookup_node : (r : R) (url : List ℕ) → 0 < length (nodes r) → Chosen lib nodes r url
  pub no_conhash : (key : List ℕ) → lib.find_conhash lib.new_conhashs key ≡ none
  pub no_ip : (key : List ℕ) → lib.find_ip lib.new_ips key ≡ none
  pub find_added :
      (m : C) (key : List ℕ) (r : R)
      → lib.find_conhash m key ≡ none
      → lib.find_conhash (lib.add_conhash m key r) key ≡ some r
  pub ip_added :
      (m : I) (key ip : List ℕ)
      → lib.find_ip m key ≡ none
      → lib.find_ip (lib.add_ip m key ip) key ≡ some ip
  pub conhash_apart :
      (m : C) (key : List ℕ) (r : R) (other : List ℕ)
      → other ≢ key
      → lib.find_conhash (lib.add_conhash m key r) other ≡ lib.find_conhash m other
  pub ip_apart :
      (m : I) (key ip other : List ℕ)
      → other ≢ key
      → lib.find_ip (lib.add_ip m key ip) other ≡ lib.find_ip m other
  pub ip_kept :
      (m : I) (key ip other : List ℕ)
      → (lib.find_ip (lib.add_ip m key ip) other ≡ some ip)
        ⊎ (lib.find_ip (lib.add_ip m key ip) other ≡ lib.find_ip m other)

-- An address that the Lua file gives for the group.
pub record IsServer (script : Script) (seq : ℕ) (ip : List ℕ) : Type 0 where
  pub n : ℕ
  pub hash_ip : List ℕ
  pub first : 1 ≤ n
  pub last : n ≤ pos_part (script.server_count seq)
  pub answered : get_server_by_seq script seq n ≡ some (ip, hash_ip)

-- Nothing is said of a failure.
abbrev pub Loaded : {S : Type 0} → (S → Type 0) → Option S → Type 0
Loaded P none = Unit
Loaded P (some s) = P s

abbrev pub AllLoaded : {S : Type 0} → (S → Type 0) → Option (Option S) → Type 0
AllLoaded P none = Unit
AllLoaded P (some m) = Loaded P m

pub AllLoaded-bind :
    {A S : Type 0} (m : Option A) (f : A → Option (Option S)) (P : S → Type 0)
    → ((a : A) → m ≡ some a → AllLoaded P (f a))
    → AllLoaded P (m >>= f)
AllLoaded-bind none f P k = tt
AllLoaded-bind (some a) f P k = k a refl
