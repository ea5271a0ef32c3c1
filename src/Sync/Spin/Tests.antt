-- ===== src/Sync/Spin/Tests.antt =====
-- Two processors on one spinlock.
use safira_uraa.Base.{ℕ, ◌≡◌, ◌≢◌, refl, arith}
use safira_uraa.Base.{update}
use safira_uraa.Sync.Spin.{
  Spinlock, spin_init, spin_try_lock, spin_unlock, outside, trying, polling, inside, call, win,
  lose, leave, System, pick, Turn, start, Steps, here, next,
}
use safira_uraa.Sync.Spin.Exclusion.{mutual_exclusion, waiter_enters}

abbrev fresh : Spinlock
fresh = record { locked = 7; class_id = 0; name = 0 }

-- Processor 0 has the lock, and processor 1 polls.
abbrev contended : System
contended = record {
  lock = record { locked = 1; class_id = 10; name = 0 };
  pc = update (update (update (update (λ _. outside) 0 trying) 0 inside) 1 trying) 1 polling;
}

contended-Steps : Steps (start fresh 10 0) contended
unfolding start spin_init spin_try_lock
contended-Steps =
    next (next (next (next here (pick 0 call)) (pick 0 (win refl))) (pick 1 call))
      (pick 1 (lose refl))

mutual_exclusion_example : ◌≡◌ {A = ℕ} 0 0
mutual_exclusion_example = mutual_exclusion fresh 10 0 contended-Steps 0 0 refl refl

-- Processor 0 has left again.
abbrev released : System
released = record {
  lock = record { locked = 0; class_id = 10; name = 0 };
  pc = update contended.pc 0 outside;
}

released-Steps : Steps (start fresh 10 0) released
unfolding spin_unlock
released-Steps = next contended-Steps (pick 0 leave)

nobody_inside : (j : ℕ) → released.pc j ≢ inside
nobody_inside j h = ground arith

waiter_enters_example :
    ((t : System) × Turn 1 released t)
    × ((t : System)
        → Turn 1 released t
        → ((u : System) × Turn 1 t u) × ((u : System) → Turn 1 t u → u.pc 1 ≡ inside))
waiter_enters_example = waiter_enters fresh 10 0 released-Steps 1 refl nobody_inside
