-- ===== src/Files.antt =====
-- eother.c: names of files, files and directories that are created and removed, random numbers
-- and the address of the host.
pub mod Suffix
pub mod Directories
pub mod Interfaces
mod Tests
use libeasy.Prelude.{
  ℕ, zero, suc, ◌+◌, ◌-◌, Bool, true, false, not, ◌&&◌, Option, none, some, List, [], ◌∷◌, ◌++◌,
  ◌==◌, ltb, if◌then◌else◌, length, take, drop, get_or,
}
use libeasy.Prelude.Int.{ℤ, pos, negsuc}

-- The loop of `file_suffix`, over the places below `n`, the last first.
unfoldable pub find_dot : (n : ℕ) → List ℕ → Option (List ℕ)
find_dot zero name = none
find_dot (suc i) name =
    let more = find_dot i name in if get_or name i 0 == b'.' then some (drop (suc i) name) else more

abbrev pub suffix_of : List ℕ → Option (List ℕ)
suffix_of [] = none
suffix_of (c ∷ cs) =
    if get_or (c ∷ cs) (length cs) 0 == b'.' then none else find_dot (length (c ∷ cs)) (c ∷ cs)

-- `file_suffix`; `none` is the pointer NULL.
unfoldable pub file_suffix : Option (List ℕ) → Option (List ℕ)
file_suffix none = none
file_suffix (some name) = suffix_of name

-- What the functions ask of the system, on a file system `F`: `access` with F_OK and with R_OK, `stat`
-- for the length, and `mkdir`, `fopen` to write, `truncate` and `unlink`, which answer whether they
-- succeeded.
pub record System (F : Type 0) : Type 0 where
  pub exists : List ℕ → F → Bool
  pub readable : List ℕ → F → Bool
  pub stat : List ℕ → F → Option ℕ
  pub mkdir : List ℕ → F → Bool × F
  pub fopen : List ℕ → F → Bool × F
  pub truncate : List ℕ → ℕ → F → Bool × F
  pub unlink : List ℕ → F → Bool × F

-- The bytes of a path that `create_dir` keeps.
abbrev pub max_path : ℕ
max_path = 1023

module _ {F : Type 0} (system : System F) where
  -- `file_get_length`
  unfoldable pub file_get_length : List ℕ → F → ℤ
  file_get_length name f = elim (system.stat name f) [ none ↦ negsuc 0 | some n ↦ pos n ]

  abbrev pub make : List ℕ → F → Bool × F
  make path f = if system.exists path f then (true, f) else system.mkdir path f

  abbrev pub and_then : Bool × F → (F → Bool × F) → Bool × F
  and_then (ok, f) more = if ok then more f else (false, f)

  -- The loop of `create_dir`: `path` is what stands before the place, and the bytes from it on are
  -- given.
  unfoldable pub make_parents : (path : List ℕ) → List ℕ → F → Bool × F
  make_parents path [] f = (true, f)
  make_parents [] (c ∷ cs) f = make_parents (c ∷ []) cs f
  make_parents (p ∷ ps) (c ∷ cs) f =
      let more : F → Bool × F = λ g. make_parents (p ∷ ps ++ c ∷ []) cs g in
      if c == b'/' then and_then (make (p ∷ ps) f) more else more f

  -- The test behind the loop.
  abbrev pub make_last : List ℕ → F → Bool × F
  make_last [] f = (true, f)
  make_last (c ∷ cs) f = make (c ∷ cs) f

  -- `create_dir`
  unfoldable pub create_dir : List ℕ → F → Bool × F
  create_dir path_name f =
      let path = take max_path path_name in
      and_then (make_parents [] path f) (λ g. make_last path g)

  -- `file_exist`
  unfoldable pub file_exist : List ℕ → F → Bool
  file_exist name f = system.readable name f

  -- `create_file`
  unfoldable pub create_file : List ℕ → (size : ℕ) → F → Bool × F
  create_file name size f = and_then (system.fopen name f) (λ g. system.truncate name size g)

  -- `create_file_if_not_existed`
  unfoldable pub create_file_if_not_existed : List ℕ → F → Bool × F
  create_file_if_not_existed name f =
      if system.readable name f then (true, f) else system.fopen name f

  -- `remove_file`
  unfoldable pub remove_file : List ℕ → F → Bool × F
  remove_file name f = if system.readable name f then system.unlink name f else (true, f)

abbrev pub is_self_or_parent : List ℕ → Bool
is_self_or_parent [] = false
is_self_or_parent (c ∷ []) = c == b'.'
is_self_or_parent (c ∷ d ∷ []) = (c == b'.') && (d == b'.')
is_self_or_parent (c ∷ d ∷ e ∷ cs) = false

-- The paths that the loop of `list_dir` passes to the callback, cut to 126 bytes.
abbrev pub listed_paths : (path : List ℕ) → (entries : List (List ℕ)) → List (List ℕ)
listed_paths path [] = []
listed_paths path (entry ∷ entries) =
    if is_self_or_parent entry
    then listed_paths path entries
    else take 126 (path ++ entry) ∷ listed_paths path entries

-- `list_dir`; the entries are what `opendir` and `readdir` give, `none` where the former fails.
unfoldable pub list_dir : (path : List ℕ) → Option (List (List ℕ)) → Bool × List (List ℕ)
list_dir path none = (false, [])
list_dir path (some entries) = (true, listed_paths path entries)
