-- ===== src/Sched/Links.antt =====
-- The two operations of mcsos/kernel/mcsos_thread.c on the links: a thread is appended to the queue,
-- and the first one is taken off.
use safira_uraa.Base.{
  ℕ, ◌+◌, ◌^◌, ◌<◌, ◌≡◌, ◌≢◌, refl, sym, ap, ◌∙◌, false, List, [], ◌∷◌, ◌++◌, length, length-append,
  arith, ◌==◌, if◌then◌else◌, update,
}
use mathlib.Core.Path.{subst}
use safira_uraa.Base.Words.{u64}
use safira_uraa.Sched.{ready, Threads, Machine, thread_magic, append, detach}
use safira_uraa.Sched.Queue.{
  has, last_or, Is, Queue, Linked, last-member, member_ready, Queue-update, Queue-append,
  Distinct-append, link,
}

pub last-append : (d t : ℕ) (xs : List ℕ) → last_or d (xs ++ (t ∷ [])) ≡ t
last-append d t [] = refl
last-append d t (x ∷ xs) = last-append x t xs

-- What a thread looks like after an operation on the links: only links and states change.
module _ (m : Machine) (t : ℕ) where
  queued : Threads
  queued = update m.threads t (record (m.threads t) { state = ready; next = 0 })

  pub append-state :
      (a : ℕ) → ((append m t).threads a).state ≡ (if t == a then ready else (m.threads a).state)
  unfolding append
  append-state a = ground arith

  pub append-magic : (a : ℕ) → ((append m t).threads a).magic ≡ (m.threads a).magic
  unfolding append
  append-magic a = ground arith

  pub append-sched :
      ((append m t).sched.current ≡ m.sched.current)
      × ((append m t).sched.idle ≡ m.sched.idle)
      × ((append m t).sched.initialized ≡ m.sched.initialized)
  unfolding append
  append-sched = ground arith

  module _ (is : t ≢ 0) (magic : (m.threads t).magic ≡ thread_magic) where
    queued_ready : Is queued ready t
    unfolding queued
    queued_ready = ground arith

    append_first : Linked m [] → Linked (append m t) (t ∷ [])
    unfolding append
    append_first l = record {
      live = ground arith;
      queue = ground arith;
      tail = ground arith;
      count = ground arith;
      distinct = (refl, tt);
    }

    module _ (x : ℕ) (xs : List ℕ) (l : Linked m (x ∷ xs)) where
      behind : Machine
      behind = record {
        sched = record m.sched {
          ready_tail = t;
          runnable_count = u64 (m.sched.runnable_count + 1);
        };
        threads = link queued (last_or x xs) t;
      }

      append-behind : append m t ≡ behind
      unfolding append behind queued
      append-behind =
          let last_is =
            member_ready m.threads m.sched.ready_head (last_or x xs) (x ∷ xs) l.queue
              (last-member x xs) in
          ground (arith, l.tail, last_is.0)

      append_next :
          has t (x ∷ xs) ≡ false
          → length (x ∷ xs) + 1 < 2 ^ 64
          → Linked (append m t) (x ∷ (xs ++ (t ∷ [])))
      unfolding behind queued
      append_next out small =
          let chain =
            Queue-update m.threads m.sched.ready_head t
              (record (m.threads t) { state = ready; next = 0 }) (x ∷ xs) l.queue out in
          let end : (queued t).next ≡ 0 = ground arith in
          rw append-behind (record {
            live = l.live;
            queue =
                Queue-append queued m.sched.ready_head x t xs chain l.distinct out queued_ready end;
            tail = sym (last-append x t xs);
            count = omega (arith, l.count, length-append xs (t ∷ []), small);
            distinct = Distinct-append (x ∷ xs) t l.distinct out;
          })

  -- A thread that is not in the queue goes to its end.
  pub append-Linked :
      (q : List ℕ)
      → Linked m q
      → t ≢ 0
      → (m.threads t).magic ≡ thread_magic
      → has t q ≡ false
      → length q + 1 < 2 ^ 64
      → Linked (append m t) (q ++ (t ∷ []))
  append-Linked [] l is magic out small = append_first is magic l
  append-Linked (x ∷ xs) l is magic out small = append_next is magic x xs l out small

module _ (m : Machine) where
  pub detach-state : (a : ℕ) → ((detach m).threads a).state ≡ (m.threads a).state
  unfolding detach
  detach-state a = ground arith

  pub detach-magic : (a : ℕ) → ((detach m).threads a).magic ≡ (m.threads a).magic
  unfolding detach
  detach-magic a = ground arith

  -- The first thread of the queue is taken off.
  pub detach-Linked : (x : ℕ) (xs : List ℕ) → Linked m (x ∷ xs) → Linked (detach m) xs
  unfolding detach
  detach-Linked x [] l = record {
    live = l.live;
    queue = ground (arith, l.queue);
    tail = ground (arith, l.queue);
    count = ground (arith, l.count);
    distinct = tt;
  }
  detach-Linked x (y ∷ ys) l =
      let rest : (m.threads m.sched.ready_head).next ≡ y =
        ap (λ h. (m.threads h).next) l.queue.0 ∙ l.queue.2.0 in
      let chain : Queue (detach m).threads (m.threads m.sched.ready_head).next (y ∷ ys) =
        Queue-update m.threads (m.threads m.sched.ready_head).next m.sched.ready_head
          (record (m.threads m.sched.ready_head) { next = 0 }) (y ∷ ys)
          (subst (λ h. Queue m.threads (m.threads h).next (y ∷ ys)) (sym l.queue.0) l.queue.2)
          (ap (λ h. has h (y ∷ ys)) l.queue.0 ∙ l.distinct.0) in
      record {
        live = l.live;
        queue = chain;
        tail = ground (arith, rest, l.queue.2.1.0, l.tail);
        count = ground (arith, l.count);
        distinct = l.distinct.1;
      }
