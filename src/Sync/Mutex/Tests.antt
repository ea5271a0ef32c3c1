-- ===== src/Sync/Mutex/Tests.antt =====
-- Two threads on one mutex.
use safira_uraa.Base.{ℕ, ◌≡◌, refl, arith, true, false, ◌↔◌, inl}
use safira_uraa.Base.{update}
use safira_uraa.Sync.Status.{ok, ebusy, eperm, edeadlk}
use safira_uraa.Sync.Mutex.{
  Mutex, mutex_init, mutex_try_lock, mutex_unlock, outside, won, lost, try_wins, try_loses, System,
  pick, start, Steps, here, next,
}
use safira_uraa.Sync.Mutex.Ownership.{one_holder, owner_test}

abbrev fresh : Mutex
fresh = record { locked = 7; owner = 7; class_id = 0; name = 0 }

abbrev taken : Mutex
taken = record { locked = 1; owner = 1; class_id = 10; name = 0 }

-- As in mcsos/tests/m12_sync_host_test.c: a second attempt, a stranger's attempts, and the end.
sequential :
    (mutex_try_lock (mutex_init fresh 10 0) 1 ≡ (ok, taken))
    × ((mutex_try_lock taken 1).0 ≡ edeadlk)
    × ((mutex_try_lock taken 2).0 ≡ ebusy)
    × ((mutex_unlock taken 2).0 ≡ eperm)
    × (mutex_unlock taken 1 ≡ (ok, mutex_init fresh 10 0))
unfolding mutex_init mutex_try_lock mutex_unlock
sequential = (refl, refl, refl, refl, refl)

-- Thread 1 loses the exchange before thread 0, which has won it, has stored its id.
abbrev racing : System
racing = record {
  mutex = record { locked = 1; owner = 0; class_id = 10; name = 0 };
  pc = update (update (λ _. outside) 0 won) 1 (lost false);
}

racing-Steps : Steps (start fresh 10 0) racing
unfolding start mutex_init
racing-Steps = next (next here (pick 0 (try_wins refl))) (pick 1 (try_loses (omega arith)))

one_holder_example : ◌≡◌ {A = ℕ} 0 0
one_holder_example = one_holder fresh 10 0 racing-Steps 0 0 refl refl

owner_test_example : (racing.mutex.owner ≡ 2) ↔ (false ≡ true)
owner_test_example = owner_test fresh 10 0 racing-Steps 1 false (inl refl)
