-- ===== src/Sync/Spin.antt =====
-- mcsos/kernel/sync/spinlock.c, and the processors that contend for one lock. Each atomic access
-- is one step, and the steps interleave in any order (sequential consistency).
pub mod Exclusion
mod Tests
use safira_uraa.Base.{ℕ, ◌≡◌, Bool, true, false, ◌==◌, ◌!=◌, if◌then◌else◌}
use safira_uraa.Base.{update}

-- `mcs_spinlock_t`; a name is its address.
pub record Spinlock : Type 0 where
  pub locked : ℕ
  pub class_id : ℕ
  pub name : ℕ

pub spin_init : Spinlock → ℕ → ℕ → Spinlock
spin_init l class_id name = record l { locked = 0; class_id = class_id; name = name }

-- An atomic exchange with 1; true where the old value was 0.
pub spin_try_lock : Spinlock → Bool × Spinlock
spin_try_lock l = (l.locked == 0, record l { locked = 1 })

pub spin_unlock : Spinlock → Spinlock
spin_unlock l = record l { locked = 0 }

pub spin_is_locked : Spinlock → Bool
spin_is_locked l = l.locked != 0

-- Where a processor stands: at the exchange of `mcs_spin_lock`, in its inner loop of plain loads,
-- between acquisition and release, or elsewhere.
pub data Pc : Type 0 where
  outside trying polling inside : Pc

-- One step of one processor. `attempt` is a call of `mcs_spin_try_lock` by itself.
-- `mcs_spin_unlock` does not check who calls it; here only a processor that is inside does, which is
-- how the lock is meant to be used.
pub data Move (l : Spinlock) : Pc → Spinlock → Pc → Type 0 where
  call : Move l outside l trying
  win : (spin_try_lock l).0 ≡ true → Move l trying (spin_try_lock l).1 inside
  lose : (spin_try_lock l).0 ≡ false → Move l trying (spin_try_lock l).1 polling
  poll_busy : spin_is_locked l ≡ true → Move l polling l polling
  poll_free : spin_is_locked l ≡ false → Move l polling l trying
  attempt_wins : (spin_try_lock l).0 ≡ true → Move l outside (spin_try_lock l).1 inside
  attempt_fails : (spin_try_lock l).0 ≡ false → Move l outside (spin_try_lock l).1 outside
  leave : Move l inside (spin_unlock l) outside

pub record System : Type 0 where
  pub lock : Spinlock
  pub pc : ℕ → Pc

pub data Step (s : System) : System → Type 0 where
  pick :
      (i : ℕ) {l : Spinlock} {p : Pc}
      → Move s.lock (s.pc i) l p
      → Step s (record { lock = l; pc = update s.pc i p })

-- One step of processor `i`.
pub data Turn (i : ℕ) (s : System) : System → Type 0 where
  turn :
      {l : Spinlock} {p : Pc}
      → Move s.lock (s.pc i) l p
      → Turn i s (record { lock = l; pc = update s.pc i p })

-- All processors are outside, and the lock has been initialised.
unfoldable pub start : Spinlock → ℕ → ℕ → System
start l class_id name = record { lock = spin_init l class_id name; pc = λ _. outside }

pub data Steps (s : System) : System → Type 0 where
  here : Steps s s
  next : {t u : System} → Steps s t → Step t u → Steps s u
