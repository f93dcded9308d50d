-- ===== src/Files/Interfaces.antt =====
-- eother.c: random numbers and the address of the host (`create_random`, `get_ip`).
use libeasy.Prelude.{
  ℕ, zero, suc, ◌%◌, Bool, ◌&&◌, ◌||◌, Option, none, some, List, [], ◌∷◌, if◌then◌else◌, take, drop,
}
use libeasy.Prelude.Int.{ℤ, pos, negsuc}
use libeasy.Prelude.Text.{codes, same_bytes}

-- `random_of seed` is what `random` answers next, which is never negative, once `srand` was called with
-- `seed`.
unfoldable pub create_random : (random_of : ℕ → ℕ) → (tv_usec : ℕ) → (max : ℤ) → Option ℤ
create_random random_of tv_usec (pos zero) = none
create_random random_of tv_usec (pos (suc n)) = some (pos (random_of tv_usec % suc n))
create_random random_of tv_usec (negsuc n) = some (pos (random_of tv_usec % suc n))

-- `AF_INET`, `AF_INET6` and the others.
pub data Family : Type 0 where
  inet : Family
  inet6 : Family
  other_family : Family

-- What `getifaddrs` lists: the name, and the family and the bytes of the address, where the pointer
-- to it is not NULL.
pub record Interface : Type 0 where
  pub ifa_name : List ℕ
  pub ifa_addr : Option (Family × List ℕ)

-- The field `sin_addr` of an address, and the bytes from there on.
abbrev pub sin_addr : List ℕ → List ℕ
sin_addr address = drop 4 address

abbrev pub is_card : (name : List ℕ) → Bool
is_card name = same_bytes name (codes "en0") || same_bytes name (codes "eth0")

-- The text of the address, where the interface is the one that is asked for.
abbrev pub ip_of :
    (inet_ntop : Family → List ℕ → List ℕ)
    → (version name : List ℕ) → Family × List ℕ
    → Option (List ℕ)
ip_of inet_ntop version name (inet, address) =
    if is_card name && same_bytes version (codes "v4")
    then some (inet_ntop inet (take 4 (sin_addr address)))
    else none
ip_of inet_ntop version name (inet6, address) =
    if is_card name && same_bytes version (codes "v6")
    then some (inet_ntop inet6 (take 16 (sin_addr address)))
    else none
ip_of inet_ntop version name (other_family, address) = none

abbrev pub or_next : Option (List ℕ) → Option (Option (List ℕ)) → Option (Option (List ℕ))
or_next (some text) next = some (some text)
or_next none next = next

-- A pointer `ifa_addr` that is NULL is followed.
abbrev pub on_interface :
    (inet_ntop : Family → List ℕ → List ℕ)
    → (version name : List ℕ) → Option (Family × List ℕ)
    → (next : Option (Option (List ℕ))) → Option (Option (List ℕ))
on_interface inet_ntop version name none next = none
on_interface inet_ntop version name (some address) next =
    or_next (ip_of inet_ntop version name address) next

-- `get_ip`: `some (some text)` is that it returns 1 and `address` is the text, `some none` that it
-- returns 0.
unfoldable pub get_ip :
    (inet_ntop : Family → List ℕ → List ℕ)
    → List Interface
    → (version : List ℕ) → Option (Option (List ℕ))
get_ip inet_ntop [] version = some none
get_ip inet_ntop (i ∷ rest) version =
    on_interface inet_ntop version i.ifa_name i.ifa_addr (get_ip inet_ntop rest version)
