-- ===== src/Sched/Count.antt =====
-- `mcsos_sched_ready_count` of mcsos/kernel/mcsos_thread.c, and the count after a thread that is in
-- the queue already is enqueued once more.
use safira_uraa.Base.{
  ℕ, zero, suc, ◌+◌, ◌≡◌, ◌≢◌, refl, sym, ap, ◌∙◌, true, Option, none, some, List, [], ◌∷◌, ◌++◌,
  arith, ◌==◌, if◌then◌else◌, ℕ_discrete,
}
use mathlib.Core.Path.{subst}
use safira_uraa.Base.Words.{u64}
use safira_uraa.Sched.{ready, ok, Threads, Machine, append, sched_enqueue}
use safira_uraa.Sched.Queue.{has, Is, Queue, Linked, member_ready}
use safira_uraa.Sched.Links.{last-append}

-- The loop of `mcsos_sched_ready_count` from `cur` on, with fuel.
pub count_from : Threads → ℕ → ℕ → ℕ → Option ℕ
count_from threads zero cur count = none
count_from threads (suc fuel) cur count =
    let rest = count_from threads fuel (threads cur).next (u64 (count + 1)) in
    if cur == 0 then some count else rest

pub sched_ready_count : ℕ → Machine → Option ℕ
sched_ready_count fuel m =
    if m.sched.initialized == 0 then some 0 else count_from m.threads fuel m.sched.ready_head 0

-- The loop of the count runs in a circle of one thread.
circles :
    (threads : Threads) (t : ℕ)
    → t ≢ 0
    → (threads t).next ≡ t
    → (fuel count : ℕ) → count_from threads fuel t count ≡ none
unfolding count_from
circles threads t some_thread self zero count = refl
circles threads t some_thread self (suc fuel) count =
    rw (self, circles threads t some_thread self fuel (u64 (count + 1))) (ground arith)

-- The loop of the count reaches the circle at the end of the links.
leads :
    (threads : Threads) (t : ℕ)
    → t ≢ 0
    → (threads t).next ≡ t
    → (before : Threads) (pre : List ℕ) (p : ℕ) → Queue before p (pre ++ (t ∷ []))
    → ((a : ℕ) → a ≢ t → (threads a).next ≡ (before a).next)
    → (fuel count : ℕ) → count_from threads fuel p count ≡ none
unfolding count_from
leads threads t some_thread self before [] p h same zero count = refl
leads threads t some_thread self before [] p (e, is, end) same (suc fuel) count =
    rw e (circles threads t some_thread self (suc fuel) count)
leads threads t some_thread self before (x ∷ pre) p h same zero count = refl
leads threads t some_thread self before (x ∷ pre) p (e, is, h) same (suc fuel) count =
    elim (ℕ_discrete x t) [
      | yes here ↦ rw (e, here) (circles threads t some_thread self (suc fuel) count)
      | no other ↦
          let rest =
            leads threads t some_thread self before pre (threads x).next
              (subst (λ n. Queue before n (pre ++ (t ∷ []))) (sym (same x other)) h) same fuel
              (u64 (count + 1)) in
          rw (e, rest) (ground (arith, is.0))
    ]

last_has : (t : ℕ) (pre : List ℕ) → has t (pre ++ (t ∷ [])) ≡ true
last_has t [] = ground arith
last_has t (x ∷ pre) = ground (arith, last_has t pre)

module _ (m : Machine) (pre : List ℕ) (t : ℕ) (l : Linked m (pre ++ (t ∷ []))) where
  last_ready : Is m.threads ready t
  last_ready =
      member_ready m.threads m.sched.ready_head t (pre ++ (t ∷ [])) l.queue (last_has t pre)

  tail_is : m.sched.ready_tail ≡ t
  tail_is = l.tail ∙ last-append 0 t pre

  passes : sched_enqueue m t ≡ (ok, append m t)
  unfolding sched_enqueue
  passes = ground (arith, last_ready, l.live)

  append_self :
      (((append m t).threads t).next ≡ t)
      × ((append m t).sched.ready_head ≡ m.sched.ready_head)
      × ((append m t).sched.initialized ≡ m.sched.initialized)
  unfolding append
  append_self = ground (arith, tail_is, last_ready.0)

  append-others : (a : ℕ) → a ≢ t → ((append m t).threads a).next ≡ (m.threads a).next
  unfolding append
  append-others a ne = ground (arith, tail_is, last_ready.0)

  counts_on : (fuel : ℕ) → sched_ready_count fuel (append m t) ≡ none
  unfolding sched_ready_count
  counts_on fuel =
      let (self, head, live) = append_self in
      let rest : count_from (append m t).threads fuel (append m t).sched.ready_head 0 ≡ none =
        leads (append m t).threads t last_ready.0 self m.threads pre (append m t).sched.ready_head
          (subst (λ p. Queue m.threads p (pre ++ (t ∷ []))) (sym head) l.queue) append-others fuel
          0 in
      ground (arith, rest, live, l.live)

  -- Where the links are a queue of distinct ready threads, enqueueing the last of them once more
  -- reports success, and the count of the ready threads never ends after it, whatever the fuel.
  pub requeue_hangs :
      ((sched_enqueue m t).0 ≡ ok)
      × ((fuel : ℕ) → sched_ready_count fuel (sched_enqueue m t).1 ≡ none)
  requeue_hangs =
      (ap (λ r. r.0) passes, λ fuel. ap (λ r. sched_ready_count fuel r.1) passes ∙ counts_on fuel)
