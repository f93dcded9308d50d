-- ===== src/Lua/Bindings.antt =====
-- easy_lua.c: the functions for zones, for groups of servers and for locks between processes.
use libeasy.Prelude.{ℕ, zero, suc, Bool, true, false, Option, none, some, List, [], ◌∷◌}
use libeasy.Prelude.Fault.{◌>>=◌}
use libeasy.Prelude.Int.{ℤ, pos, negsuc}
use libeasy.Prelude.Text.{codes}
use libeasy.IpZone.{Host, Zone, Zones, ip_zones_find, ip_zones_destroy}
use libeasy.IpZone.Load.{Loaded, loaded, refused, stuck, unfinished}
use libeasy.ServerConhash.{
  Conhash, ServerConhash, Freed, server_conhash_find, server_conhash_destroy,
}
use libeasy.ProcessLock.{
  Lock, Setup, Kernel, process_lock_create, process_lock_init, process_try_lock, process_lock,
  process_unlock, process_lock_delete,
}

-- What a function pushes: nil, a string, or a pointer, which may be NULL.
pub data Value (P : Type 0) : Type 0 where
  nil : Value P
  text : List ℕ → Value P
  userdata : Option P → Value P

-- `lua_pushstring`, which pushes nil for NULL.
abbrev pub push_string : {P : Type 0} → Option (List ℕ) → Value P
push_string none = nil
push_string (some cs) = text cs

-- How `lua_ip_zones_load` ends: by `lua_error`, with what it pushed, or not at all.
pub data Outcome : Type 0 where
  raised : List ℕ → Outcome
  pushed : Value Zones → Outcome
  endless : Outcome

abbrev pub push_loaded : Loaded → Outcome
push_loaded (loaded zs) = pushed (userdata (some zs))
push_loaded refused = pushed (userdata none)
push_loaded stuck = endless
push_loaded unfinished = endless

-- `lua_ip_zones_load`, on the string that it is given, if it is one, and on what `ip_zones_load` makes of
-- the file of that name.
unfoldable pub lua_ip_zones_load :
    (load : List ℕ → Option Loaded) → Option (List ℕ) → Option Outcome
lua_ip_zones_load load none = some (raised (codes "incorrect argument"))
lua_ip_zones_load load (some file_name) = load file_name >>= λ r. some (push_loaded r)

-- `lua_ip_zones_find`
unfoldable pub lua_ip_zones_find :
    Host → Option Zones → (ip : Option (List ℕ)) → Option (Value Zones)
lua_ip_zones_find h none ip = none
lua_ip_zones_find h (some zs) none = none
lua_ip_zones_find h (some zs) (some ip) = some (push_string (ip_zones_find h zs ip))

-- `lua_ip_zones_destroy`
unfoldable pub lua_ip_zones_destroy : Option Zones → Option (List Zone)
lua_ip_zones_destroy zs = ip_zones_destroy zs

-- `lua_server_conhash_destroy`
unfoldable pub lua_server_conhash_destroy :
    {C I : Type 0} → Option (ServerConhash C I) → List (Freed C I)
lua_server_conhash_destroy s = server_conhash_destroy s

-- `lua_server_conhash_create`, on what `server_conhash_create` makes of the file.
unfoldable pub lua_server_conhash_create :
    {C I : Type 0}
    → (create : List ℕ → Option (Option (ServerConhash C I))) → (lua_file : Option (List ℕ))
    → Option (List (Value (ServerConhash C I)))
lua_server_conhash_create create none = some []
lua_server_conhash_create create (some lua_file) = create lua_file >>= λ s. some (userdata s ∷ [])

-- `lua_server_conhash_find`; a missing URL makes `server_conhash_find` return NULL, as an empty one does.
abbrev pub url_of : Option (List ℕ) → List ℕ
url_of none = []
url_of (some url) = url

unfoldable pub lua_server_conhash_find :
    {R C I : Type 0}
    → Conhash R C I
    → Option (ServerConhash C I)
    → (group_id : ℤ) (url : Option (List ℕ)) → Option (Value (ServerConhash C I))
lua_server_conhash_find lib s group_id url =
    server_conhash_find lib s group_id (url_of url) >>= λ ip. some (push_string ip)

abbrev pub ok : List (Value Lock)
ok = text (codes "ok") ∷ []

-- nil and what went wrong.
abbrev pub failure : List ℕ → List (Value Lock)
failure message = nil ∷ text message ∷ []

abbrev pub push_lock : Option Lock → List (Value Lock)
push_lock none = failure (codes "create lock failed")
push_lock (some lock) = userdata (some lock) ∷ []

-- `lua_process_lock_create`
unfoldable pub lua_process_lock_create : Setup → List (Value Lock)
lua_process_lock_create a = push_lock ((process_lock_create a).0)

-- What `lua_process_try_lock` makes of the result.
abbrev pub push_try : {K : Type 0} → Option ℤ × K → Option (List (Value Lock)) × K
push_try (none, k) = (none, k)
push_try (some (pos zero), k) = (some (failure (codes "EAGAIN")), k)
push_try (some (pos (suc n)), k) = (some ok, k)
push_try (some (negsuc zero), k) = (some (failure (codes "semop try lock failed")), k)
push_try (some (negsuc (suc n)), k) = (some ok, k)

-- What `lua_process_lock` and `lua_process_unlock` make of theirs.
abbrev pub push_result :
    {K : Type 0} → (message : List ℕ) → Option ℤ × K → Option (List (Value Lock)) × K
push_result message (none, k) = (none, k)
push_result message (some (pos zero), k) = (some (failure message), k)
push_result message (some (pos (suc n)), k) = (some ok, k)
push_result message (some (negsuc n), k) = (some ok, k)

abbrev pub push_done : {K : Type 0} → (message : List ℕ) → Bool × K → List (Value Lock) × K
push_done message (true, k) = (ok, k)
push_done message (false, k) = (failure message, k)

-- `lua_process_lock_release`
unfoldable pub lua_process_lock_release : Option Lock → List (Value Lock)
lua_process_lock_release lock = ok

-- A pointer NULL is followed.
module _ {K : Type 0} (kernel : Kernel K) where
  unfoldable pub lua_process_lock_init : Option Lock → K → Option (List (Value Lock) × K)
  lua_process_lock_init pm k =
      pm >>= λ lock. some (push_done (codes "semctl failed") (process_lock_init kernel lock k))

  -- `some (none, k)` while it does not return.
  unfoldable pub lua_process_try_lock : Option Lock → K → Option (Option (List (Value Lock)) × K)
  lua_process_try_lock pm k = pm >>= λ lock. some (push_try (process_try_lock kernel lock k))

  unfoldable pub lua_process_lock : Option Lock → K → Option (Option (List (Value Lock)) × K)
  lua_process_lock pm k =
      pm >>= λ lock. some (push_result (codes "semop for lock failed") (process_lock kernel lock k))

  unfoldable pub lua_process_unlock : Option Lock → K → Option (Option (List (Value Lock)) × K)
  lua_process_unlock pm k = pm >>= λ lock.
      some (push_result (codes "semop for unlock failed") (process_unlock kernel lock k))

  unfoldable pub lua_process_lock_delete : Option Lock → K → Option (List (Value Lock) × K)
  lua_process_lock_delete pm k = pm >>= λ lock.
      some (push_done (codes "delete global sem failed") (process_lock_delete kernel lock k))
