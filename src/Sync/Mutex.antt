-- ===== src/Sync/Mutex.antt =====
-- mcsos/kernel/sync/mutex.c, and the threads that contend for one mutex. Each atomic access is one
-- step, and the steps interleave in any order (sequential consistency).
pub mod Ownership
mod Tests
use safira_uraa.Base.{ℕ, ◌+◌, ◌≡◌, ◌≢◌, Bool, true, false, ◌==◌, ◌!=◌, if◌then◌else◌}
use safira_uraa.Base.{update}
use safira_uraa.Sync.Status.{Status, ok, einval, ebusy, eperm, edeadlk}

-- `mcs_mutex_t`; a name is its address.
pub record Mutex : Type 0 where
  pub locked : ℕ
  pub owner : ℕ
  pub class_id : ℕ
  pub name : ℕ

pub mutex_init : Mutex → ℕ → ℕ → Mutex
mutex_init m class_id name = record m { locked = 0; owner = 0; class_id = class_id; name = name }

pub mutex_try_lock : Mutex → ℕ → Status × Mutex
mutex_try_lock m owner_id =
    if owner_id == 0
    then (einval, m)
    else if m.locked == 0
    then (ok, record m { locked = 1; owner = owner_id })
    else if m.owner == owner_id
    then (edeadlk, m)
    else (ebusy, m)

pub mutex_unlock : Mutex → ℕ → Status × Mutex
mutex_unlock m owner_id =
    if owner_id == 0
    then (einval, m)
    else if m.owner != owner_id
    then (eperm, m)
    else (ok, record m { owner = 0; locked = 0 })

pub mutex_is_locked : Mutex → Bool
mutex_is_locked m = m.locked != 0

pub mutex_owner : Mutex → ℕ
mutex_owner m = m.owner

-- Thread `i` calls with the id `i + 1`.
abbrev pub id_of : ℕ → ℕ
id_of i = i + 1

-- Where a thread stands. In `mcs_mutex_try_lock`: the exchange is won and the owner not yet stored,
-- or it is lost and the owner not yet loaded. In `mcs_mutex_unlock`: before the load of the owner,
-- before the store that clears it, and before the store that frees the lock. The flag says whether
-- the call was made between a successful lock and a successful unlock.
pub data Pc : Type 0 where
  outside won inside clearing freeing : Pc
  lost checking : Bool → Pc

abbrev pub home : Bool → Pc
home true = inside
home false = outside

pub data Move (m : Mutex) (i : ℕ) : Pc → Mutex → Pc → Type 0 where
  try_wins : m.locked ≡ 0 → Move m i outside (record m { locked = 1 }) won
  try_loses : m.locked ≢ 0 → Move m i outside m (lost false)
  retry_wins : m.locked ≡ 0 → Move m i inside (record m { locked = 1 }) won
  retry_loses : m.locked ≢ 0 → Move m i inside m (lost true)
  store_owner : Move m i won (record m { owner = id_of i }) inside
  answer_deadlock : {h : Bool} → m.owner ≡ id_of i → Move m i (lost h) m (home h)
  answer_busy : {h : Bool} → m.owner ≢ id_of i → Move m i (lost h) m (home h)
  unlock_outside : Move m i outside m (checking false)
  unlock_inside : Move m i inside m (checking true)
  answer_not_owner : {h : Bool} → m.owner ≢ id_of i → Move m i (checking h) m (home h)
  is_owner : {h : Bool} → m.owner ≡ id_of i → Move m i (checking h) m clearing
  clear_owner : Move m i clearing (record m { owner = 0 }) freeing
  free_lock : Move m i freeing (record m { locked = 0 }) outside

pub record System : Type 0 where
  pub mutex : Mutex
  pub pc : ℕ → Pc

pub data Step (s : System) : System → Type 0 where
  pick :
      (i : ℕ) {m : Mutex} {p : Pc}
      → Move s.mutex i (s.pc i) m p
      → Step s (record { mutex = m; pc = update s.pc i p })

unfoldable pub start : Mutex → ℕ → ℕ → System
start m class_id name = record { mutex = mutex_init m class_id name; pc = λ _. outside }

pub data Steps (s : System) : System → Type 0 where
  here : Steps s s
  next : {t u : System} → Steps s t → Step t u → Steps s u
