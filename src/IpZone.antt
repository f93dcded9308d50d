-- ===== src/IpZone.antt =====
-- ip_zone/ip_zone.c: ranges of addresses in a search tree, and the lines that they are read from.
pub mod Load
pub mod Order
pub mod Insert
pub mod Range
pub mod Lines
pub mod Scanning
pub mod Files
pub mod Ended
mod Tests
use libeasy.Prelude.{
  ℕ, zero, suc, ◌+◌, ◌-◌, ◌*◌, ◌%◌, ◌^◌, Bool, true, false, not, ◌&&◌, ◌||◌, Option, none, some,
  List, [], ◌∷◌, ◌++◌, ◌==◌, if◌then◌else◌, ltb, leb, length, take,
}
use libeasy.Prelude.Fault.{◌>>=◌}
use libeasy.Prelude.Int.{ℤ, pos, negsuc}
use libeasy.Prelude.Text.{value}

-- `ip_zone_t`, without the node of the tree that it stands in.
pub record Zone : Type 0 where
  pub start : ℕ
  pub end : ℕ
  pub netmask : ℕ
  pub subnet : List ℕ
  pub zone_name : List ℕ

-- A tree of `rb_node`; the colours are those of the tree's own library.
pub data Tree : Type 0 where
  leaf : Tree
  node : (left : Tree) (zone : Zone) (right : Tree) → Tree

-- `ip_zones_t`
pub record Zones : Type 0 where
  pub tree : Tree
  pub count : ℕ

abbrev pub max_subnet_size : ℕ
max_subnet_size = 24

abbrev pub max_zone_name_size : ℕ
max_zone_name_size = 64

-- The loop of `rbtree_search`, on the address in the order of the host.
unfoldable pub rbtree_search : (ip : ℕ) → Tree → Option Zone
rbtree_search ip leaf = none
rbtree_search ip (node l z r) =
    let left = rbtree_search ip l in
    let right = rbtree_search ip r in
    if ltb ip z.start then left else if leb z.end ip then right else some z

abbrev pub in_left : Zone → Tree → Option Tree → Option Tree
in_left z r none = none
in_left z r (some l) = some (node l z r)

abbrev pub in_right : Tree → Zone → Option Tree → Option Tree
in_right l z none = none
in_right l z (some r) = some (node l z r)

-- The loop of `rbtree_insert` and `rb_link_node`; `none` where it returns 0.
unfoldable pub place : Zone → Tree → Option Tree
place d leaf = some (node leaf d leaf)
place d (node l z r) =
    let left = place d l in
    let right = place d r in
    if ltb d.start z.start
    then in_left z r left
    else if leb z.end d.end
    then in_right l z right
    else none

-- `rbtree_insert`; `rebalance` is `rb_insert_color` on the whole tree.
unfoldable pub rbtree_insert : (rebalance : Tree → Tree) → Zone → Tree → Option Tree
rbtree_insert rebalance d t = place d t >>= λ u. some (rebalance u)

-- The string before `;|`, and the one behind it.
unfoldable pub find_mark : List ℕ → Option (List ℕ × List ℕ)
find_mark [] = none
find_mark (c ∷ []) = none
find_mark (c ∷ d ∷ cs) =
    let rest = find_mark (d ∷ cs) in
    if (c == b';') && (d == b'|') then some ([], cs) else (rest >>= λ p. some (c ∷ p.0, p.1))

-- The name of the zone, up to a space or the end of the line.
abbrev pub cut_name : List ℕ → List ℕ
cut_name [] = []
cut_name (c ∷ cs) = if (c == b' ') || (c == 13) || (c == 10) then [] else c ∷ cut_name cs

-- The string before the first `/`, and the one behind it.
unfoldable pub find_slash : List ℕ → Option (List ℕ × List ℕ)
find_slash [] = none
find_slash (c ∷ cs) =
    let rest = find_slash cs in
    if c == b'/' then some ([], cs) else (rest >>= λ p. some (c ∷ p.0, p.1))

abbrev pub is_digit : ℕ → Bool
is_digit c = leb b'0' c && leb c b'9'

abbrev pub leading_digits : List ℕ → List ℕ
leading_digits [] = []
leading_digits (c ∷ cs) = if is_digit c then c ∷ leading_digits cs else []

abbrev pub is_white : ℕ → Bool
is_white c = (c == b' ') || leb 9 c && leb c 13

abbrev pub skip_white : List ℕ → List ℕ
skip_white [] = []
skip_white (c ∷ cs) = if is_white c then skip_white cs else c ∷ cs

-- The low byte of `atoi`, which is undefined where the number is no int.
abbrev pub atoi_digits : (negative : Bool) → ℕ → Option ℕ
atoi_digits negative n =
    if leb (2 ^ 31) n then none else some (if negative then (256 - n % 256) % 256 else n % 256)

abbrev pub atoi_sign : List ℕ → Option ℕ
atoi_sign [] = some 0
atoi_sign (c ∷ cs) =
    if c == b'-'
    then atoi_digits true (value 0 (leading_digits cs))
    else (if c == b'+'
        then atoi_digits false (value 0 (leading_digits cs))
        else atoi_digits false (value 0 (leading_digits (c ∷ cs))))

unfoldable pub atoi : List ℕ → Option ℕ
atoi cs = atoi_sign (skip_white cs)

-- The start and the end of a range. `1 << (32 - netmask)` is a shift of an int.
unfoldable pub range : (netmask address : ℕ) → Option (ℕ × ℕ)
range netmask address =
    if netmask == 0
    then some (0, 2 ^ 32 - 1)
    else (if ltb netmask 2 || ltb 32 netmask
        then none
        else some (address, (address + 2 ^ (32 - netmask)) % 2 ^ 32))

-- What the caller's system gives: `ntohl(inet_addr(ip))`, and the tree's library.
pub record Host : Type 0 where
  pub address : List ℕ → ℕ
  pub rebalance : Tree → Tree

abbrev pub or_same : Tree → Option Tree → Tree
or_same t none = t
or_same t (some u) = u

-- The end of `ip_zones_add`, which does not look at what `rbtree_insert` returns.
abbrev pub insert_zone : Host → Zone → Zones → Zones
insert_zone h z zs = record {
  tree = or_same zs.tree (rbtree_insert h.rebalance z zs.tree);
  count = (zs.count + 1) % 2 ^ 32;
}

abbrev pub add_range :
    Host → (subnet name : List ℕ) (netmask : ℕ) → Zones → ℕ × ℕ → Option (Bool × Zones)
add_range h subnet name netmask zs (start, end) = some (
  true,
  insert_zone h
      (record {
        start = start;
        end = end;
        netmask = netmask;
        subnet = subnet;
        zone_name = take (max_zone_name_size - 1) name;
      })
      zs,
)

abbrev pub add_network :
    Host → (subnet name : List ℕ) → Zones → Option (List ℕ × List ℕ) → Option (Bool × Zones)
add_network h subnet name zs none = some (false, zs)
add_network h subnet name zs (some (ip, mask)) =
    atoi mask >>= λ netmask. range netmask (h.address ip) >>= add_range h subnet name netmask zs

-- The string before the mark is copied into the 24 bytes of `subnet`.
abbrev pub add_marked : Host → Zones → Option (List ℕ × List ℕ) → Option (Bool × Zones)
add_marked h zs none = some (false, zs)
add_marked h zs (some (subnet, name)) =
    if ltb max_subnet_size (length subnet)
    then none
    else add_network h subnet (cut_name name) zs (find_slash subnet)

-- `ip_zones_add`
unfoldable pub ip_zones_add :
    Host → (malloc : Bool) → (line : List ℕ) → Zones → Option (Bool × Zones)
ip_zones_add h malloc line zs =
    if malloc then add_marked h zs (find_mark line) else some (false, zs)

abbrev pub name_of : Option Zone → Option (List ℕ)
name_of none = none
name_of (some z) = some z.zone_name

-- `ip_zones_find`
unfoldable pub ip_zones_find : Host → Zones → (ip : List ℕ) → Option (List ℕ)
ip_zones_find h zs ip = name_of (rbtree_search (h.address ip) zs.tree)

-- The zones in order, as `rb_first` and `rb_next` give them.
unfoldable pub in_order : Tree → List Zone
in_order leaf = []
in_order (node l z r) = in_order l ++ z ∷ in_order r

-- The line that `ip_zones_dump` prints: 126 bytes at most. A subnet of 24 bytes has no end.
abbrev pub dump_line : Zone → Option (List ℕ)
dump_line z =
    if ltb (length z.subnet) max_subnet_size
    then some (take 126 (z.subnet ++ b';' ∷ b'|' ∷ z.zone_name ++ 10 ∷ []))
    else none

abbrev pub dump_all : List Zone → Option (List ℕ)
dump_all [] = some []
dump_all (z ∷ zs) = dump_line z >>= λ line. dump_all zs >>= λ more. some (line ++ more)

-- `ip_zones_dump`
unfoldable pub ip_zones_dump : Zones → Option (List ℕ)
ip_zones_dump zs = dump_all (in_order zs.tree)

-- `ip_zones_destroy`: the zones whose memory is freed, in order; `none` of Option where the pointer
-- that is followed is NULL.
unfoldable pub ip_zones_destroy : Option Zones → Option (List Zone)
ip_zones_destroy none = none
ip_zones_destroy (some zs) = some (in_order zs.tree)
