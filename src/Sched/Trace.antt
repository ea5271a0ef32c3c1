-- ===== src/Sched/Trace.antt =====
-- Sequences of calls on the scheduler of mcsos/kernel/mcsos_thread.c.
use safira_uraa.Base.{ℕ, ◌≡◌, ◌≢◌, refl, List, [], ◌∷◌, arith}
use mathlib.Core.Path.{ap₂}
use safira_uraa.Sched.{Status, ok, Machine, valid_thread_object, scheduler_init, boot_machine}
use safira_uraa.Sched.Calls.{Between, call, call-Between}
use safira_uraa.Sched.Spec.{View, Op, step, AllProper, run}

unfoldable pub calls : Machine → List Op → List (Status × ℕ)
calls m [] = []
calls m (op ∷ ops) =
    let (status, after) = call m op in (status, after.sched.current) ∷ calls after ops

-- From every state whose links are a queue of distinct ready threads, and whose current and idle
-- threads are threads in the running state, no sequence of calls that enqueues no thread twice,
-- with a queue shorter than 2^64 - 1, tells the scheduler from taking turns: each call returns
-- the same status and leaves the same thread to run.
pub sched_calls_refine :
    (ops : List Op) (m : Machine) (v : View)
    → Between m v
    → AllProper v ops
    → calls m ops ≡ run v ops
unfolding calls run
sched_calls_refine [] m v b proper = refl
sched_calls_refine (op ∷ ops) m v b proper =
    let (same, after) = call-Between m v op b proper.0 in
    ap₂ (λ (r : Status × ℕ) (rs : List (Status × ℕ)). r ∷ rs) (λ i. (same i, after.shows.current i))
      (sched_calls_refine ops (call m op).1 (step v op).1 after proper.1)

-- The scheduler right after its initialisation.
unfoldable pub boot_view : Machine → ℕ → ℕ → View
boot_view m boot name = record {
  current = boot;
  idle = boot;
  queue = [];
  state = λ t. ((boot_machine m boot name).threads t).state;
  object = valid_thread_object (boot_machine m boot name).threads;
}

booted-Between :
    (m : Machine) (boot name : ℕ)
    → boot ≢ 0
    → Between (boot_machine m boot name) (boot_view m boot name)
unfolding boot_view
booted-Between m boot name some_thread = record {
  shows = record {
    linked = record { live = ground arith; queue = refl; tail = refl; count = refl; distinct = tt };
    current = refl;
    idle = refl;
    state = λ t. refl;
    object = λ t. refl;
  };
  steady = record {
    current_object = ground arith;
    idle_object = ground arith;
    idle_runs = ground arith;
  };
  runs = ground arith;
}

scheduler_init_lem :
    (m : Machine) (boot name : ℕ)
    → boot ≢ 0
    → scheduler_init m boot name ≡ (ok, boot_machine m boot name)
unfolding scheduler_init
scheduler_init_lem m boot name some_thread = ground arith

pub scheduler_init-Between :
    (m : Machine) (boot name : ℕ)
    → boot ≢ 0
    → ((scheduler_init m boot name).0 ≡ ok)
      × Between (scheduler_init m boot name).1 (boot_view m boot name)
scheduler_init-Between m boot name some_thread =
    rw (scheduler_init_lem m boot name some_thread) (refl, booted-Between m boot name some_thread)
