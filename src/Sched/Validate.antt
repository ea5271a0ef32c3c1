-- ===== src/Sched/Validate.antt =====
-- `mcsos_sched_validate` of mcsos/kernel/mcsos_thread.c: which schedulers it accepts, and that it ends
-- on all, also where the links run in a circle.
use safira_uraa.Base.{
  ℕ, ◌+◌, ◌^◌, ◌<◌, ◌≡◌, ◌≢◌, refl, sym, ◌∙◌, true, false, not, ◌||◌, Option, none, some, List,
  length, arith, ◌==◌, ◌!=◌, if◌then◌else◌, ◌↔◌,
}
use safira_uraa.Sched.{Status, ok, einval, ecorrupt, Machine, valid_thread_object}
use safira_uraa.Sched.Queue.{has, Queue, last_or}
use safira_uraa.Sched.Walk.{
  Walked, done, corrupt, unfinished, walk, walk_complete, walk_sound, walk_more, walk_ends,
}

-- The status, or none where the loop takes more rounds than the fuel allows.
pub sched_validate : Machine → Option Status
sched_validate m =
    if m.sched.initialized == 0 || not (valid_thread_object m.threads m.sched.current)
    then some einval
    else elim (walk m (m.sched.runnable_count + 3) m.sched.ready_head 0 0) [
      | unfinished ↦ none
      | corrupt ↦ some ecorrupt
      | done last count ↦
          if last != m.sched.ready_tail
          then some ecorrupt
          else if count != m.sched.runnable_count
          then some ecorrupt
          else some ok
    ]

-- A scheduler that is initialised and whose links are a queue.
abbrev pub Accepted : Machine → Type 0
Accepted m =
    (m.sched.initialized ≢ 0)
    × (valid_thread_object m.threads m.sched.current ≡ true)
    × ((q : List ℕ) × Queue m.threads m.sched.ready_head q
        × (has m.sched.current q ≡ false)
        × (m.sched.ready_tail ≡ last_or 0 q)
        × (m.sched.runnable_count ≡ length q))

module _ (m : Machine) (small : m.sched.runnable_count + 2 < 2 ^ 64) where
  head_ends : walk m (m.sched.runnable_count + 3) m.sched.ready_head 0 0 ≢ unfinished
  head_ends =
      walk_ends m small (m.sched.runnable_count + 3) m.sched.ready_head 0 0 (omega arith)
        (omega arith)

  answers : sched_validate m ≢ none
  unfolding sched_validate
  answers e = ground (arith, head_ends, e)

  -- Where the count of runnable threads is below 2^64 - 2, the loop of the validation comes to
  -- NULL or to a thread that it rejects within three rounds more than that count, whatever the
  -- links, also if they run in a circle: so the validation returns a status, and more rounds
  -- change nothing.
  pub walk_terminates :
      (walk m (m.sched.runnable_count + 3) m.sched.ready_head 0 0 ≢ unfinished)
      × (sched_validate m ≢ none)
      × ((extra : ℕ)
          → walk m (m.sched.runnable_count + 3 + extra) m.sched.ready_head 0 0
            ≡ walk m (m.sched.runnable_count + 3) m.sched.ready_head 0 0)
  walk_terminates = (
    head_ends,
    answers,
    λ extra.
        walk_more m small (m.sched.runnable_count + 3) extra m.sched.ready_head 0 0 (omega arith)
          (omega arith),
  )

  live_or :
      (sched_validate m ≡ some ok)
      → (m.sched.initialized ≢ 0) × (valid_thread_object m.threads m.sched.current ≡ true)
  unfolding sched_validate
  live_or e = ground arith

  -- The verdict, by what the loop finds.
  module _ (live : m.sched.initialized ≢ 0)
      (object : valid_thread_object m.threads m.sched.current ≡ true) where
    verdict-corrupt :
        walk m (m.sched.runnable_count + 3) m.sched.ready_head 0 0 ≡ corrupt
        → sched_validate m ≢ some ok
    unfolding sched_validate
    verdict-corrupt e v = ground (arith, e, v)

    verdict-done :
        (l c : ℕ)
        → walk m (m.sched.runnable_count + 3) m.sched.ready_head 0 0 ≡ done l c
        → (sched_validate m ≡ some ok) ↔ ((l ≡ m.sched.ready_tail) × (c ≡ m.sched.runnable_count))
    unfolding sched_validate
    verdict-done l c e = ground (arith, e)

  -- Where the count of runnable threads is below 2^64 - 2, the validation accepts exactly the
  -- initialised schedulers whose current thread is a thread, and whose links lead from the head
  -- through ready threads other than the current one to NULL, with the tail the last of them and
  -- the count their number.
  pub sched_validate_lem : (sched_validate m ≡ some ok) ↔ Accepted m
  sched_validate_lem = (only, back)
    where
      by_walk :
          (w : Walked)
          → walk m (m.sched.runnable_count + 3) m.sched.ready_head 0 0 ≡ w
          → sched_validate m ≡ some ok
          → Accepted m
      by_walk unfinished e v = absurd (head_ends e)
      by_walk corrupt e v =
          let (live, object) = live_or v in absurd (verdict-corrupt live object e v)
      by_walk (done l c) e v =
          let (live, object) = live_or v in
          let (tail, count) = (verdict-done live object l c e).0 v in
          let (q, h, out, last, total) =
            walk_sound m small (m.sched.runnable_count + 3) m.sched.ready_head 0 0 l c (omega arith)
              e in
          (live, object, (q, h, out, sym tail ∙ last, omega (arith, count, total)))

      only : sched_validate m ≡ some ok → Accepted m
      only = by_walk (walk m (m.sched.runnable_count + 3) m.sched.ready_head 0 0) refl

      back : Accepted m → sched_validate m ≡ some ok
      back (live, object, (q, h, out, tail, count)) =
          let e =
            walk_complete m small q (m.sched.runnable_count + 3) m.sched.ready_head 0 0 h out
              (omega arith) (omega arith) in
          (verdict-done live object (last_or 0 q) (0 + length q) e).1
            (sym tail, omega (arith, count))
