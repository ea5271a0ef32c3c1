-- ===== src/Sched/Shows.antt =====
-- One call of the scheduler of mcsos/kernel/mcsos_thread.c, against its abstract view.
use safira_uraa.Base.{
  ℕ, ◌+◌, ◌^◌, ◌<◌, ◌≡◌, ◌≢◌, refl, ap, ◌∙◌, true, false, ◌&&◌, List, ◌∷◌, length, arith, ◌==◌,
  ◌!=◌, if◌then◌else◌, update, ◌↔◌,
}
use mathlib.Core.Path.{subst}
use safira_uraa.Sched.{
  State, ready, running, Threads, Machine, thread_magic, valid_thread_object, set_state, append,
  detach, switch_to, advance,
}
use safira_uraa.Sched.Queue.{has, Linked, Queue-frame, SameLinks, Queue-update}
use safira_uraa.Sched.Links.{
  append-state, append-magic, append-sched, append-Linked, detach-state, detach-magic,
  detach-Linked,
}
use safira_uraa.Sched.Spec.{View, arrive}

-- The machine shows the view: the queue of its links, the states, and the threads that run.
pub record Shows (m : Machine) (v : View) : Type 0 where
  pub linked : Linked m v.queue
  pub current : m.sched.current ≡ v.current
  pub idle : m.sched.idle ≡ v.idle
  pub state : (t : ℕ) → (m.threads t).state ≡ v.state t
  pub object : (t : ℕ) → valid_thread_object m.threads t ≡ v.object t

-- A thread object, by its address and its magic number.
pub object_iff :
    (threads : Threads) (t : ℕ)
    → (valid_thread_object threads t ≡ true) ↔ ((t ≢ 0) × ((threads t).magic ≡ thread_magic))
object_iff threads t = ground arith

same_object :
    (threads after : Threads) (t : ℕ)
    → (after t).magic ≡ (threads t).magic
    → valid_thread_object after t ≡ valid_thread_object threads t
same_object threads after t e = ap (λ (n : ℕ). t != 0 && n == thread_magic) e

pub append-Shows :
    (m : Machine) (v : View) (t : ℕ)
    → Shows m v
    → v.object t ≡ true
    → has t v.queue ≡ false
    → length v.queue + 1 < 2 ^ 64
    → Shows (append m t) (arrive v t)
unfolding arrive
append-Shows m v t s object out small =
    let (some, magic) = (object_iff m.threads t).0 (s.object t ∙ object) in
    let (current, idle, _) = append-sched m t in
    record {
      linked = append-Linked m t v.queue s.linked some magic out small;
      current = current ∙ s.current;
      idle = idle ∙ s.idle;
      state = λ a. append-state m t a ∙ ap (λ z. if t == a then ready else z) (s.state a);
      object = λ a. same_object m.threads (append m t).threads a (append-magic m t a) ∙ s.object a;
    }

pub set_state-Shows :
    (m : Machine) (v : View) (t : ℕ) (z : State)
    → Shows m v
    → has t v.queue ≡ false
    → Shows (set_state m t z) (record v { state = update v.state t z })
set_state-Shows m v t z s out = record {
  linked = record {
    live = s.linked.live;
    queue =
        Queue-update m.threads m.sched.ready_head t (record (m.threads t) { state = z }) v.queue
          s.linked.queue out;
    tail = s.linked.tail;
    count = s.linked.count;
    distinct = s.linked.distinct;
  };
  current = s.current;
  idle = s.idle;
  state = λ a. ground (arith, s.state a);
  object = λ a. same_object m.threads (set_state m t z).threads a (ground arith) ∙ s.object a;
}

pub detach-Shows :
    (m : Machine) (v : View) (x : ℕ) (xs : List ℕ)
    → Shows m v
    → v.queue ≡ x ∷ xs
    → Shows (detach m) (record v { queue = xs })
unfolding detach
detach-Shows m v x xs s e = record {
  linked = detach-Linked m x xs (subst (Linked m) e s.linked);
  current = s.current;
  idle = s.idle;
  state = λ a. detach-state m a ∙ s.state a;
  object = λ a. same_object m.threads (detach m).threads a (detach-magic m a) ∙ s.object a;
}

module _ (m : Machine) (old next : ℕ) where
  switched :
      (a : ℕ)
      → (((switch_to m old next).threads a).magic ≡ (m.threads a).magic)
        × (((switch_to m old next).threads a).state
            ≡ (if next == a then running else (m.threads a).state))
        × (((switch_to m old next).threads a).next ≡ (m.threads a).next)
  unfolding switch_to
  switched a = ground arith

  pub switch_to-Shows :
      (v : View)
      → Shows m v
      → has next v.queue ≡ false
      → Shows
          (switch_to m old next)
          (record v { current = next; state = update v.state next running })
  unfolding switch_to
  switch_to-Shows v s out = record {
    linked = record {
      live = s.linked.live;
      queue =
          Queue-frame m.threads (switch_to m old next).threads m.sched.ready_head v.queue
            s.linked.queue
            λ a i.
              let (magic, state, link) = switched a in
              let ne : next ≢ a = λ e. ground (arith, i, out, ap (λ c. has c v.queue) e) in
              (magic, state ∙ ground arith, link);
      tail = s.linked.tail;
      count = s.linked.count;
      distinct = s.linked.distinct;
    };
    current = refl;
    idle = s.idle;
    state = λ a. (switched a).1 ∙ ap (λ z. if next == a then running else z) (s.state a);
    object =
        λ a. same_object m.threads (switch_to m old next).threads a (switched a).0 ∙ s.object a;
  }

module _ (m : Machine) where
  advanced : (a : ℕ) → SameLinks ((advance m).threads a) (m.threads a)
  unfolding advance
  advanced a = ground arith

  -- Counting a tick changes nothing that the view shows.
  pub advance-Shows : (v : View) → Shows m v → Shows (advance m) v
  unfolding advance
  advance-Shows v s = record {
    linked = record {
      live = s.linked.live;
      queue =
          Queue-frame m.threads (advance m).threads m.sched.ready_head v.queue s.linked.queue
            (λ a i. advanced a);
      tail = s.linked.tail;
      count = s.linked.count;
      distinct = s.linked.distinct;
    };
    current = s.current;
    idle = s.idle;
    state = λ a. (advanced a).1 ∙ s.state a;
    object = λ a. same_object m.threads (advance m).threads a (advanced a).0 ∙ s.object a;
  }
