-- ===== src/IpZone/Tests.antt =====
-- ip_zone/ip_zone.c: runs, and the theorems at concrete inputs.
use libeasy.Prelude.{
  ℕ, Bool, ◌+◌, ◌*◌, ◌/◌, ◌≡◌, refl, true, false, none, some, List, [], ◌∷◌, if◌then◌else◌, ◌==◌,
  ltb, arith, length, inl, inr,
}
use libeasy.Prelude.Fault.{Returns}
use libeasy.Prelude.Int.{pos}
use libeasy.Prelude.Text.{codes}
use libeasy.IpZone.{
  Zone, Tree, leaf, node, Zones, Host, rbtree_search, rbtree_insert, place, in_order, find_mark,
  find_slash, atoi, range, ip_zones_add, ip_zones_find,
}
use libeasy.IpZone.Load.{
  File, stuck, scan_line, add_line, load_loop, unended_string, ip_zones_load,
  read_ip_zones_from_file,
}
use libeasy.IpZone.Order.{contains, find_zone, Chain, rbtree_search-find_zone}
use libeasy.IpZone.Insert.{rbtree_insert-rbtree_search}
use libeasy.IpZone.Range.{size, in_range, range_network, range_wrapped}
use libeasy.IpZone.Lines.{Learned, line, ip_zones_add-ip_zones_find}
use libeasy.IpZone.Ended.{AreSound, Settled, ip_zones_load-Settled}
use libeasy.IpZone.Files.{AreText, bytes_of}

abbrev zone : (start end : ℕ) → Zone
zone start end = record { start = start; end = end; netmask = 24; subnet = []; zone_name = [] }

-- Three ranges, the second with a gap before it.
abbrev three : Tree
three = node (node leaf (zone 0 256) leaf) (zone 512 768) (node leaf (zone 768 1024) leaf)

three-Chain : Chain 0 2000 (in_order three)
unfolding in_order
three-Chain =
    (omega arith, omega arith, (omega arith, omega arith, (omega arith, omega arith, omega arith)))

rbtree_search-find_zone_example : rbtree_search 600 three ≡ find_zone 600 (in_order three)
unfolding in_order
rbtree_search-find_zone_example = rbtree_search-find_zone 600 0 2000 three three-Chain

rbtree_insert-rbtree_search_example : Returns (rbtree_insert (λ t. t) (zone 256 512) three) (λ u.
    Chain 0 2000 (in_order u)
    × (rbtree_search 300 u
        ≡ (if contains 300 (zone 256 512) then some (zone 256 512) else rbtree_search 300 three)))
unfolding in_order
rbtree_insert-rbtree_search_example =
    rbtree_insert-rbtree_search (zone 256 512) (omega arith) (λ t. t) 300 0 2000 three (λ u. refl)
      three-Chain (inr (omega arith), (inl (omega arith), (inl (omega arith), tt))) (omega arith)
      (omega arith)

-- The network 10.0.0.0/8, and 255.0.0.0/8.
abbrev ten : ℕ
ten = 10 * 16777216

range_network_example :
    Returns (range 8 ten) (λ r. in_range (ten + 5) r ≡ ((ten + 5) / size 8 == ten / size 8))
range_network_example = range_network 8 ten (omega arith) (omega arith) refl (ten + 5) (omega arith)

range_wrapped_example :
    let top = 255 * 16777216 in
    let ip = top + 1 in
    Returns (range 8 top) (λ r.
      (r ≡ (top, 0))
      × ((z : Zone) (left right : Tree)
          → z.start ≡ r.0
          → z.end ≡ r.1
          → rbtree_search ip (node left z right)
            ≡ (if ltb ip top then rbtree_search ip left else rbtree_search ip right)))
range_wrapped_example =
    range_wrapped 8 (255 * 16777216) (omega arith) (omega arith) refl (255 * 16777216 + 1) refl

-- A host where the address of `10...` is the network above.
abbrev host : Host
host = record { address = λ s. ten; rebalance = λ t. t }

abbrev no_zones : Zones
no_zones = record { tree = leaf; count = 0 }

ip_zones_add-ip_zones_find_example :
    Returns
      (ip_zones_add host true
        (line host (codes "10.0.0.0") (codes "8") (codes "home") 8 no_zones)
        no_zones)
      (Learned host (codes "10.0.0.0") (codes "8") (codes "home") 8 no_zones (codes "10.1.2.3"))
unfolding in_order atoi
ip_zones_add-ip_zones_find_example =
    ip_zones_add-ip_zones_find host (codes "10.0.0.0") (codes "8") (codes "home") 8 no_zones
      (codes "10.1.2.3")
      (record {
        no_mark = refl;
        no_slash = refl;
        short = omega arith;
        named = refl;
        mask_is = refl;
        low = omega arith;
        high = omega arith;
        aligned = refl;
        below = omega arith;
        apart = tt;
      })
      (λ u. refl) (omega arith)

-- A comment, a zone, and a last line without its end.
abbrev lines : List (Bool × List ℕ)
lines = (false, codes "#") ∷ (true, codes "1/8;|a") ∷ []

abbrev file : List ℕ → File
file tail = record {
  length_of = pos (length (bytes_of lines tail));
  fopen = true;
  malloc = true;
  fread = bytes_of lines tail;
}

lines-AreText : AreText lines
lines-AreText = (
  (refl, refl, tt),
  ((refl, refl, (refl, refl, (refl, refl, (refl, refl, (refl, refl, (refl, refl, tt)))))), tt),
)

-- A last line without its end: a comment is read again and again, and of a word what stands behind
-- the buffer is read.
comment_test : ip_zones_load host true (λ n. true) (file (codes "#end")) ≡ some stuck
unfolding ip_zones_load load_loop read_ip_zones_from_file scan_line add_line ip_zones_add find_mark
    find_slash atoi range rbtree_insert place unended_string
comment_test = refl

unended_test : ip_zones_load host true (λ n. true) (file (codes "end")) ≡ none
unfolding ip_zones_load load_loop read_ip_zones_from_file scan_line add_line ip_zones_add find_mark
    find_slash atoi range rbtree_insert place unended_string
unended_test = refl

ended_test : ip_zones_find host no_zones (codes "10.0.0.1") ≡ none
unfolding ip_zones_find rbtree_search
ended_test = refl

second_line :
    (malloc : Bool) (zs : Zones) → Returns (add_line host malloc (codes "1/8;|a") zs) (λ r. Unit)
unfolding add_line ip_zones_add find_mark find_slash atoi range
second_line true zs = tt
second_line false zs = tt

lines-AreSound : AreSound host (λ n. true) lines
unfolding add_line ip_zones_add find_mark find_slash atoi range
lines-AreSound = ((λ m zs. tt), (second_line, tt))

ip_zones_load-Settled_example :
    Returns
      (ip_zones_load host true (λ n. true) (file []))
      (Settled host (λ n. true) lines no_zones)
ip_zones_load-Settled_example =
    ip_zones_load-Settled host (λ n. true) (file []) lines refl refl refl refl (omega arith)
      lines-AreText lines-AreSound
