-- ===== src/Sched/Tests.antt =====
-- Concrete runs of mcsos/kernel/mcsos_thread.c: a boot thread at 16 and three new threads at 32, 48
-- and 64.
use safira_uraa.Base.{
  ℕ, ◌+◌, ◌^◌, ◌<◌, ◌≡◌, ◌≢◌, refl, false, none, some, List, [], ◌∷◌, arith, ◌↔◌, ◌⊎◌, update,
}
use safira_uraa.Sched.{
  ok, is_ok, Thread, Machine, Scheduler, thread_magic, scheduler_init, append, sched_enqueue,
}
use safira_uraa.Sched.Queue.{Linked}
use safira_uraa.Sched.Calls.{Between, call, call-Between}
use safira_uraa.Sched.Spec.{
  View, Op, enqueue, wake, give_up, block, tick, turn, arrive, step, AllProper, run,
}
use safira_uraa.Sched.Trace.{calls, sched_calls_refine, boot_view, scheduler_init-Between}
use safira_uraa.Sched.Fair.{yields, sched_yield_fair}
use safira_uraa.Sched.Walk.{unfinished, walk}
use safira_uraa.Sched.Validate.{sched_validate, Accepted, sched_validate_lem, walk_terminates}
use safira_uraa.Sched.Prepare.{fresh_thread, thread_prepare, Usable, Prepared, thread_prepare_lem}
use safira_uraa.Sched.Count.{sched_ready_count, requeue_hangs}

abbrev blank : Scheduler
blank = record {
  current = 0;
  idle = 0;
  ready_head = 0;
  ready_tail = 0;
  next_id = 0;
  runnable_count = 0;
  context_switches = 0;
  ticks = 0;
  initialized = 0;
}

abbrev plain : ℕ → Thread
plain id = record (fresh_thread 1 2 3 4 4096 8192 id 12280) { magic = thread_magic }

unfoldable raw : Machine
unfolding fresh_thread
raw = record {
  sched = blank;
  threads =
      update (update (update (λ _. record (plain 0) { magic = 0 }) 32 (plain 1)) 48 (plain 2)) 64
        (plain 3);
}

unfoldable booted : Machine
booted = (scheduler_init raw 16 7).1

unfoldable at_boot : View
at_boot = boot_view raw 16 7

booted-Between : Between booted at_boot
unfolding booted at_boot
booted-Between = (scheduler_init-Between raw 16 7 (ground arith)).1

abbrev client : List Op
client = enqueue 32 ∷ (enqueue 48 ∷ (give_up ∷ (tick ∷ (block ∷ (wake 32 ∷ (give_up ∷ []))))))

client-Proper : AllProper at_boot client
unfolding at_boot boot_view scheduler_init raw fresh_thread step turn arrive
client-Proper = ground arith

sched_calls_refine_example : calls booted client ≡ run at_boot client
sched_calls_refine_example = sched_calls_refine client booted at_boot booted-Between client-Proper

unfoldable one : Machine
one = (call booted (enqueue 32)).1

unfoldable two : Machine
two = (call one (enqueue 48)).1

unfoldable two_view : View
two_view = (step (step at_boot (enqueue 32)).1 (enqueue 48)).1

two-Between : Between two two_view
unfolding one two two_view at_boot boot_view scheduler_init raw fresh_thread step turn arrive
two-Between =
    let first = (call-Between booted at_boot (enqueue 32) booted-Between (ground arith)).1 in
    (call-Between one (step at_boot (enqueue 32)).1 (enqueue 48) first (ground arith)).1

sched_yield_fair_example : (yields 2 two).sched.current ≡ 48
unfolding two_view at_boot boot_view step arrive scheduler_init raw fresh_thread
sched_yield_fair_example =
    sched_yield_fair two two_view (32 ∷ []) [] 48 two-Between refl (omega arith)

two_counts : two.sched.runnable_count + 2 < 2 ^ 64
unfolding two one booted call sched_enqueue append scheduler_init raw fresh_thread
two_counts = omega arith

sched_validate_lem_example : (sched_validate two ≡ some ok) ↔ Accepted two
sched_validate_lem_example = sched_validate_lem two two_counts

-- The last thread of the queue is enqueued once more: its link leads to itself.
unfoldable looped : Machine
looped = (sched_enqueue two 48).1

looped_counts : looped.sched.runnable_count + 2 < 2 ^ 64
unfolding looped two one booted call sched_enqueue append scheduler_init raw fresh_thread
looped_counts = omega arith

walk_terminates_example :
    (walk looped (looped.sched.runnable_count + 3) looped.sched.ready_head 0 0 ≢ unfinished)
    × (sched_validate looped ≢ none)
    × ((extra : ℕ)
        → walk looped (looped.sched.runnable_count + 3 + extra) looped.sched.ready_head 0 0
          ≡ walk looped (looped.sched.runnable_count + 3) looped.sched.ready_head 0 0)
walk_terminates_example = walk_terminates looped looped_counts

two-Linked : Linked two (32 ∷ (48 ∷ []))
unfolding two_view at_boot boot_view step arrive scheduler_init raw fresh_thread
two-Linked = two-Between.shows.linked

requeue_hangs_example :
    ((sched_enqueue two 48).0 ≡ ok)
    × ((fuel : ℕ) → sched_ready_count fuel (sched_enqueue two 48).1 ≡ none)
requeue_hangs_example = requeue_hangs two (32 ∷ []) 48 two-Linked

abbrev untouched : Thread
untouched = record (plain 0) { magic = 0 }

thread_prepare_lem_example :
    let out = thread_prepare 1 untouched 2 3 4 4101 8192 5 in
    ((out.0 ≡ ok)
      × Usable 3 4101 8192
      × Prepared 1 2 3 4 4101 8192 5 out.1
      × (out.2 ≡ some out.1.context.rsp))
    ⊎ ((¬ Usable 3 4101 8192) × (is_ok out.0 ≡ false) × (out ≡ (out.0, untouched, none)))
thread_prepare_lem_example =
    thread_prepare_lem 1 untouched 2 3 4 4101 8192 5 (omega arith) (omega arith)
