-- ===== src/Sync/Lockdep/Tests.antt =====
-- Runs of mcsos/kernel/sync/lockdep.c, as in mcsos/tests/m12_sync_host_test.c.
use safira_uraa.Base.{ℕ, zero, suc, ◌≡◌, refl, true, List, [], ◌∷◌, arith}
use safira_uraa.Sync.Status.{ok, eperm, edeadlk}
use safira_uraa.Sync.Lockdep.{Lockdep, init, holds_below, before_acquire, after_release, is_held}
use safira_uraa.Sync.Lockdep.Stack.{held, IsValid, before_acquire_lem, Checked}
use safira_uraa.Sync.Lockdep.Release
use safira_uraa.Sync.Lockdep.Release.{after_release_lem, after_release-before_acquire}
use safira_uraa.Sync.Lockdep.Order.{
  Act, acquire, act, acts, init-IsValid, acts-IsValid, no_wait_cycle, WaitsFor, waits, Chain,
}

-- Class 10, then class 20, are held.
abbrev nested : Lockdep
nested = acts init (acquire 10 0x1000 ∷ acquire 20 0x2000 ∷ [])

nested-held : (held nested ≡ 10 ∷ 20 ∷ []) × (is_held nested 10 ≡ true)
unfolding acts act before_acquire holds_below is_held
nested-held = (refl, refl)

out_of_order :
    ((before_acquire nested 15 0).0 ≡ edeadlk)
    × ((after_release nested 10 0).0 ≡ edeadlk)
    × ((after_release init 10 0).0 ≡ eperm)
unfolding acts act before_acquire after_release holds_below
out_of_order = (refl, refl, refl)

nested-IsValid : IsValid nested
nested-IsValid = acts-IsValid _ init-IsValid

before_acquire_lem_example : Checked nested-IsValid 15 0 (omega arith) (before_acquire nested 15 0)
before_acquire_lem_example = before_acquire_lem nested-IsValid 15 0 (omega arith)

after_release_lem_example :
    Release.Checked nested-IsValid 20 0 (omega arith) (after_release nested 20 0)
after_release_lem_example = after_release_lem nested-IsValid 20 0 (omega arith)

after_release-before_acquire_example :
    after_release (before_acquire init 10 0x1000).1 10 0x1000 ≡ (ok, init)
after_release-before_acquire_example =
    after_release-before_acquire 10 0x1000 init-IsValid (omega arith) (omega arith)

-- Context 0 holds class 10 and waits for class 20, which context 1 holds while it waits for 30.
abbrev script : ℕ → List Act
script zero = acquire 10 0 ∷ acquire 20 0 ∷ []
script (suc k) = acquire 20 0 ∷ acquire 30 0 ∷ []

zero_waits : WaitsFor (λ k. acts init (script k)) 0 1
unfolding acts act before_acquire holds_below
zero_waits = waits (omega arith) refl

no_wait_cycle_example : ¬ Chain (λ k. acts init (script k)) 0 0
no_wait_cycle_example = no_wait_cycle script 0
