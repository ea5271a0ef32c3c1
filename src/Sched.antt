-- ===== src/Sched.antt =====
-- mcsos/kernel/mcsos_thread.c and mcsos/include/mcsos_thread.h: threads, and the scheduler's queue of
-- ready threads, which is linked through them. A pointer is an address, 0 for NULL; the threads are
-- a store by address, which the scheduler and every queue share.
pub mod Queue
pub mod Links
pub mod Spec
pub mod Shows
pub mod Yield
pub mod Calls
pub mod Trace
pub mod Fair
pub mod Walk
pub mod Validate
pub mod Prepare
pub mod Count
mod Tests
use safira_uraa.Base.{
  ℕ, zero, suc, ◌+◌, ◌-◌, ◌^◌, Bool, true, false, not, ◌&&◌, ◌||◌, Option, none, some, ltb, leb,
  ◌==◌, ◌!=◌, if◌then◌else◌, bit_and, update,
}
use safira_uraa.Base.Words.{u64, not64}

abbrev pub thread_magic : ℕ
thread_magic = 0x4d43534f53544852

abbrev pub stack_align : ℕ
stack_align = 16

abbrev pub min_kernel_stack : ℕ
min_kernel_stack = 4096

-- `mcsos_thread_state_t`; a state that is read before it is written is any of these.
pub data State : Type 0 where
  new ready running blocked zombie : State

abbrev pub is_running : State → Bool
is_running running = true
is_running _ = false

abbrev pub is_blocked : State → Bool
is_blocked blocked = true
is_blocked _ = false

abbrev pub is_ready : State → Bool
is_ready ready = true
is_ready _ = false

abbrev pub is_new : State → Bool
is_new new = true
is_new _ = false

-- `mcsos_sched_result_t`
pub data Status : Type 0 where
  ok einval estate estack ecorrupt : Status

abbrev pub is_ok : Status → Bool
is_ok ok = true
is_ok _ = false

-- `mcsos_context_t`
pub record Context : Type 0 where
  pub rsp : ℕ
  pub rbp : ℕ
  pub rbx : ℕ
  pub r12 : ℕ
  pub r13 : ℕ
  pub r14 : ℕ
  pub r15 : ℕ
  pub rip : ℕ

-- `mcsos_thread_t`; a name and an entry are addresses.
pub record Thread : Type 0 where
  pub magic : ℕ
  pub id : ℕ
  pub name : ℕ
  pub state : State
  pub context : Context
  pub entry : ℕ
  pub arg : ℕ
  pub stack_base : ℕ
  pub stack_size : ℕ
  pub next : ℕ
  pub switches : ℕ
  pub ticks : ℕ
  pub exit_code : ℕ

-- `mcsos_scheduler_t`
pub record Scheduler : Type 0 where
  pub current : ℕ
  pub idle : ℕ
  pub ready_head : ℕ
  pub ready_tail : ℕ
  pub next_id : ℕ
  pub runnable_count : ℕ
  pub context_switches : ℕ
  pub ticks : ℕ
  pub initialized : ℕ

-- The scheduler and the threads.
pub record Machine : Type 0 where
  pub sched : Scheduler
  pub threads : ℕ → Thread

abbrev pub Threads : Type 0
Threads = ℕ → Thread

abbrev pub valid_thread_object : Threads → ℕ → Bool
valid_thread_object threads t = t != 0 && (threads t).magic == thread_magic

abbrev pub zero_context : Context
zero_context = record { rsp = 0; rbp = 0; rbx = 0; r12 = 0; r13 = 0; r14 = 0; r15 = 0; rip = 0 }

abbrev boot_scheduler : ℕ → Scheduler
boot_scheduler boot_thread = record {
  current = boot_thread;
  idle = boot_thread;
  ready_head = 0;
  ready_tail = 0;
  next_id = 1;
  runnable_count = 0;
  context_switches = 0;
  ticks = 0;
  initialized = 1;
}

abbrev boot_object : ℕ → Thread
boot_object name = record {
  magic = thread_magic;
  id = 0;
  name = name;
  state = running;
  context = zero_context;
  entry = 0;
  arg = 0;
  stack_base = 0;
  stack_size = 0;
  next = 0;
  switches = 0;
  ticks = 0;
  exit_code = 0;
}

-- `name` is the address of "boot".
abbrev pub boot_machine : Machine → ℕ → ℕ → Machine
boot_machine m boot_thread name = record {
  sched = boot_scheduler boot_thread;
  threads = update m.threads boot_thread (boot_object name);
}

pub scheduler_init : Machine → ℕ → ℕ → Status × Machine
scheduler_init m boot_thread name =
    if boot_thread == 0 then (einval, m) else (ok, boot_machine m boot_thread name)

-- The links that `mcsos_sched_enqueue` makes once the thread has passed.
pub append : Machine → ℕ → Machine
append m t =
    let queued : Threads = update m.threads t (record (m.threads t) { state = ready; next = 0 }) in
    let tail : ℕ = m.sched.ready_tail in
    let count : ℕ = u64 (m.sched.runnable_count + 1) in
    if tail == 0
    then record {
      sched = record m.sched { ready_head = t; ready_tail = t; runnable_count = count };
      threads = queued;
    }
    else record {
      sched = record m.sched { ready_tail = t; runnable_count = count };
      threads = update queued tail (record (queued tail) { next = t });
    }

pub sched_enqueue : Machine → ℕ → Status × Machine
sched_enqueue m t =
    let state : State = (m.threads t).state in
    if m.sched.initialized == 0 || not (valid_thread_object m.threads t)
    then (einval, m)
    else if not (is_new state) && not (is_ready state) && not (is_blocked state)
    then (estate, m)
    else (ok, append m t)

-- The head of the queue is taken off.
pub detach : Machine → Machine
detach m =
    let t : ℕ = m.sched.ready_head in
    let rest : ℕ = (m.threads t).next in
    record {
      sched = record m.sched {
        ready_head = rest;
        ready_tail = if rest == 0 then 0 else m.sched.ready_tail;
        runnable_count =
            if ltb 0 m.sched.runnable_count
            then m.sched.runnable_count - 1
            else m.sched.runnable_count;
      };
      threads = update m.threads t (record (m.threads t) { next = 0 });
    }

pub sched_pick_next : Machine → ℕ × Machine
sched_pick_next m =
    if m.sched.initialized == 0
    then (0, m)
    else if m.sched.ready_head == 0
    then (m.sched.idle, m)
    else (m.sched.ready_head, detach m)

abbrev pub set_state : Machine → ℕ → State → Machine
set_state m t s = record m { threads = update m.threads t (record (m.threads t) { state = s }) }

abbrev pub count_switch : Threads → ℕ → Threads
count_switch threads t =
    update threads t (record (threads t) { switches = u64 ((threads t).switches + 1) })

-- The end of `mcsos_sched_yield`, up to the switch of the registers.
pub switch_to : Machine → ℕ → ℕ → Machine
switch_to m old next =
    let chosen : Machine = set_state m next running in
    record {
      sched = record m.sched {
        current = next;
        context_switches = u64 (m.sched.context_switches + 1);
      };
      threads = count_switch (count_switch chosen.threads old) next;
    }

-- A thread that runs goes back to the queue, unless it is the idle thread.
pub requeue : Machine → ℕ → Status × Machine
requeue m old =
    if is_running (m.threads old).state && old != m.sched.idle
    then sched_enqueue (set_state m old ready) old
    else (ok, m)

pub sched_yield : Machine → Status × Machine
sched_yield m =
    let old : ℕ = m.sched.current in
    let (next, picked) = sched_pick_next m in
    let (rc, queued) = requeue picked old in
    if m.sched.initialized == 0 || not (valid_thread_object m.threads old)
    then (einval, m)
    else if not (valid_thread_object picked.threads next)
    then (ecorrupt, picked)
    else if next == old
    then (ok, set_state picked old running)
    else if not (is_ok rc)
    then (rc, queued)
    else (ok, switch_to queued old next)

pub advance : Machine → Machine
advance m =
    let t : ℕ = m.sched.current in
    record {
      sched = record m.sched { ticks = u64 (m.sched.ticks + 1) };
      threads = update m.threads t (record (m.threads t) { ticks = u64 ((m.threads t).ticks + 1) });
    }

pub sched_tick : Machine → Status × Machine
sched_tick m =
    if m.sched.initialized == 0 || not (valid_thread_object m.threads m.sched.current)
    then (einval, m)
    else (ok, advance m)

pub thread_block_current : Machine → Status × Machine
thread_block_current m =
    if m.sched.initialized == 0 || not (valid_thread_object m.threads m.sched.current)
    then (einval, m)
    else if m.sched.current == m.sched.idle
    then (estate, m)
    else sched_yield (set_state m m.sched.current blocked)

pub thread_mark_ready : Machine → ℕ → Status × Machine
thread_mark_ready m t =
    if not (valid_thread_object m.threads t)
    then (einval, m)
    else if not (is_blocked (m.threads t).state)
    then (estate, m)
    else sched_enqueue m t
