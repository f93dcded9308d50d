-- ===== src/Files/Tests.antt =====
-- eother.c: runs, and the theorems at concrete inputs.
use libeasy.Prelude.Int.{pos, negsuc}
use libeasy.Prelude.{
  ℕ, zero, suc, ◌*◌, ◌≡◌, refl, Bool, true, false, ◌||◌, none, some, List, [], ◌∷◌, arith,
}
use libeasy.Prelude.Text.{codes, same_bytes, same_bytes_self}
use libeasy.Files.{System, file_suffix, find_dot, create_dir, make_parents}
use libeasy.Files.Suffix.{behind_last, unless_empty, file_suffix-behind_last}
use libeasy.Files.Interfaces.{Interface, inet, inet6, create_random, get_ip}
use libeasy.Files.Directories.{IsSystem, create_dir-exists, Parents}

suffix_test : file_suffix (some (codes "a.tar.gz")) ≡ some (codes "gz")
unfolding file_suffix find_dot
suffix_test = refl

-- A dot of a directory is taken for that of a suffix.
directory_test : file_suffix (some (codes "/a.b/c")) ≡ some (codes "b/c")
unfolding file_suffix find_dot
directory_test = refl

file_suffix-behind_last_example :
    file_suffix (some (codes "a.b.c")) ≡ unless_empty (behind_last (codes "a.b.c"))
file_suffix-behind_last_example = file_suffix-behind_last (codes "a.b.c")

abbrev member : List ℕ → List (List ℕ) → Bool
member path [] = false
member path (q ∷ qs) = same_bytes path q || member path qs

-- A file system that is the list of the directories in it.
abbrev listed : System (List (List ℕ))
listed = record {
  exists = λ path f. member path f;
  readable = λ path f. member path f;
  stat = λ path f. none;
  mkdir = λ path f. (true, path ∷ f);
  fopen = λ path f. (true, f);
  truncate = λ path n f. (true, f);
  unlink = λ path f. (true, f);
}

listed-IsSystem : IsSystem listed
listed-IsSystem = record {
  made = λ path f ok. ground (arith, same_bytes_self path);
  stays = λ path other f e. ground arith;
}

create_test : create_dir listed (codes "/a/b") [] ≡ (true, codes "/a/b" ∷ codes "/a" ∷ [])
unfolding create_dir make_parents
create_test = refl

create_dir-exists_example :
    let g = (create_dir listed (codes "/a/b") []).1 in
    Parents listed listed-IsSystem [] (codes "/a/b") g × (listed.exists (codes "/a/b") g ≡ true)
unfolding create_dir make_parents
create_dir-exists_example =
    create_dir-exists listed listed-IsSystem b'/' (codes "a/b") [] (omega arith) refl

random_test : create_random (λ seed. seed * 1103515245) 7 (pos 10) ≡ some (pos 5)
unfolding create_random
random_test = refl

-- What `random` answers is not negative, so that the sign of `max` is of no effect.
negative_test : create_random (λ seed. 25) 7 (negsuc 9) ≡ some (pos 5)
unfolding create_random
negative_test = refl

abbrev count_up : (n from : ℕ) → List ℕ
count_up zero from = []
count_up (suc n) from = from ∷ count_up n (suc from)

abbrev cards : List Interface
cards =
    record { ifa_name = codes "lo"; ifa_addr = some (inet, 2 ∷ 0 ∷ 0 ∷ 0 ∷ 127 ∷ 0 ∷ 0 ∷ 1 ∷ []) }
    ∷ record { ifa_name = codes "eth0"; ifa_addr = some (inet6, count_up 28 0) }
    ∷ record {
      ifa_name = codes "eth0";
      ifa_addr = some (inet, 2 ∷ 0 ∷ 0 ∷ 0 ∷ 10 ∷ 0 ∷ 0 ∷ 9 ∷ []);
    }
    ∷ []

ip_test : get_ip (λ family address. address) cards (codes "v4") ≡ some (some (10 ∷ 0 ∷ 0 ∷ 9 ∷ []))
unfolding get_ip
ip_test = refl

-- The address of IPv6 begins behind 8 bytes, and `get_ip` reads it behind 4.
ip6_test : get_ip (λ family address. address) cards (codes "v6") ≡ some (some (count_up 16 4))
unfolding get_ip
ip6_test = refl
