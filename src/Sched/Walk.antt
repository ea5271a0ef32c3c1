-- ===== src/Sched/Walk.antt =====
-- The loop of `mcsos_sched_validate` of mcsos/kernel/mcsos_thread.c: its rounds, what they say of the
-- links, and that they end.
use safira_uraa.Base.{
  ℕ, zero, suc, ◌+◌, ◌^◌, ◌<◌, ◌≤◌, ◌≡◌, ◌≢◌, refl, sym, ap, ◌∙◌, false, not, ◌&&◌, List, [], ◌∷◌,
  length, arith, ltb, ◌==◌, if◌then◌else◌, ℕ_discrete, ◌⊎◌, inl, inr,
}
use mathlib.Core.Path.{subst}
use safira_uraa.Base.Words.{u64}
use safira_uraa.Sched.{State, ready, is_ready, Machine, valid_thread_object}
use safira_uraa.Sched.Queue.{has, Is, Queue, last_or}

-- How the loop of `mcsos_sched_validate` comes out: at NULL, with the last thread and the count; at
-- a thread for which it returns an error; or not at all, where the fuel runs out.
pub data Walked : Type 0 where
  done : (last count : ℕ) → Walked
  corrupt unfinished : Walked

-- The loop, with fuel for its rounds.
pub walk : Machine → ℕ → ℕ → ℕ → ℕ → Walked
walk m zero cursor last count = unfinished
walk m (suc fuel) cursor last count =
    let counted : ℕ = u64 (count + 1) in
    let rest = walk m fuel (m.threads cursor).next cursor counted in
    if cursor == 0
    then done last count
    else if not (valid_thread_object m.threads cursor && is_ready (m.threads cursor).state)
    then corrupt
    else if cursor == m.sched.current
    then corrupt
    else if ltb (u64 (m.sched.runnable_count + 1)) counted
    then corrupt
    else rest

-- What the loop asks of a thread in the queue that has `count` threads before it.
abbrev Passes : Machine → ℕ → ℕ → Type 0
Passes m cursor count =
    Is m.threads ready cursor × (cursor ≢ m.sched.current) × (count ≤ m.sched.runnable_count)

passing_or : (m : Machine) (cursor count : ℕ) → Passes m cursor count ⊎ (¬ Passes m cursor count)
passing_or m cursor count = by_state (m.threads cursor).state refl
  where
    by_state :
        (z : State)
        → (m.threads cursor).state ≡ z
        → Passes m cursor count ⊎ (¬ Passes m cursor count)
    by_state ready e = ground arith
    by_state z e = ground arith

-- One round of the loop at a thread that passes every test.
module _ (m : Machine) (fuel cursor last count : ℕ)
    (small : m.sched.runnable_count + 2 < 2 ^ 64) where
  walk-pass :
      Passes m cursor count
      → walk m (suc fuel) cursor last count ≡ walk m fuel (m.threads cursor).next cursor (count + 1)
  unfolding walk
  walk-pass p =
      let counted : u64 (count + 1) ≡ count + 1 = omega arith in
      let bound : u64 (m.sched.runnable_count + 1) ≡ m.sched.runnable_count + 1 = omega arith in
      ground (arith, p, counted, bound)

  walk-end : cursor ≡ 0 → walk m (suc fuel) cursor last count ≡ done last count
  unfolding walk
  walk-end e = ground arith

  walk-stop :
      cursor ≢ 0
      → ¬ Passes m cursor count
      → count ≤ m.sched.runnable_count + 1
      → walk m (suc fuel) cursor last count ≡ corrupt
  unfolding walk
  walk-stop some_thread p few =
      let counted : u64 (count + 1) ≡ count + 1 = omega arith in
      let bound : u64 (m.sched.runnable_count + 1) ≡ m.sched.runnable_count + 1 = omega arith in
      ground (arith, p, counted, bound)

module _ (m : Machine) (small : m.sched.runnable_count + 2 < 2 ^ 64) where
  pub walk_complete :
      (q : List ℕ) (fuel cursor last count : ℕ)
      → Queue m.threads cursor q
      → has m.sched.current q ≡ false
      → count + length q ≤ m.sched.runnable_count
      → length q < fuel
      → walk m fuel cursor last count ≡ done (last_or last q) (count + length q)
  walk_complete q zero cursor last count h out few more = absurd (omega arith)
  walk_complete [] (suc fuel) cursor last count h out few more =
      walk-end m fuel cursor last count small h ∙ ap (done last) (omega arith)
  walk_complete (x ∷ xs) (suc fuel) cursor last count (e, is, h) out few more =
      let passes : Passes m cursor count =
        (subst (Is m.threads ready) (sym e) is, ground (arith, e, out), omega arith) in
      let total : count + 1 + length xs ≡ count + suc (length xs) = omega arith in
      walk-pass m fuel cursor last count small passes
      ∙ walk_complete xs fuel (m.threads cursor).next cursor (count + 1)
          (subst (λ c. Queue m.threads (m.threads c).next xs) (sym e) h) (ground arith)
          (omega arith) (omega arith)
      ∙ rw (total, e) refl

  pub walk_sound :
      (fuel cursor last count l c : ℕ)
      → count ≤ m.sched.runnable_count + 1
      → walk m fuel cursor last count ≡ done l c
      → (q : List ℕ) × Queue m.threads cursor q
        × (has m.sched.current q ≡ false)
        × (l ≡ last_or last q)
        × (c ≡ count + length q)
  unfolding walk
  walk_sound zero cursor last count l c few e = absurd (ground (arith, e))
  walk_sound (suc fuel) cursor last count l c few e = elim (ℕ_discrete cursor 0) [
    | yes end ↦
        let ends = sym (walk-end m fuel cursor last count small end) ∙ e in
        ([], end, refl, ground (arith, ends), ground (arith, ends))
    | no some_thread ↦ elim (passing_or m cursor count) [
      | inr fails ↦
          absurd (ground (arith, walk-stop m fuel cursor last count small some_thread fails few, e))
      | inl (is, ne, more) ↦
          let goes = sym (walk-pass m fuel cursor last count small (is, ne, more)) ∙ e in
          let (q, h, out, last_is, total) =
            walk_sound fuel (m.threads cursor).next cursor (count + 1) l c (omega arith) goes in
          (cursor ∷ q, (refl, is, h), ground (arith, out), last_is, omega (arith, total))
    ]
  ]

  pub walk_more :
      (fuel extra cursor last count : ℕ)
      → count ≤ m.sched.runnable_count + 1
      → m.sched.runnable_count + 2 ≤ fuel + count
      → walk m (fuel + extra) cursor last count ≡ walk m fuel cursor last count
  walk_more zero extra cursor last count few more = absurd (omega arith)
  walk_more (suc fuel) extra cursor last count few more =
      let one : suc fuel + extra ≡ suc (fuel + extra) = omega arith in
      ap (λ n. walk m n cursor last count) one ∙ elim (ℕ_discrete cursor 0) [
        | yes end ↦
            walk-end m (fuel + extra) cursor last count small end
            ∙ sym (walk-end m fuel cursor last count small end)
        | no some_thread ↦ elim (passing_or m cursor count) [
          | inr fails ↦
              walk-stop m (fuel + extra) cursor last count small some_thread fails few
              ∙ sym (walk-stop m fuel cursor last count small some_thread fails few)
          | inl passes ↦
              walk-pass m (fuel + extra) cursor last count small passes
              ∙ walk_more fuel extra (m.threads cursor).next cursor (count + 1)
                  (omega (arith, passes.2)) (omega arith)
              ∙ sym (walk-pass m fuel cursor last count small passes)
        ]
      ]

  -- Enough rounds reach an end.
  pub walk_ends :
      (fuel cursor last count : ℕ)
      → count ≤ m.sched.runnable_count + 1
      → m.sched.runnable_count + 2 ≤ fuel + count
      → walk m fuel cursor last count ≢ unfinished
  walk_ends zero cursor last count few more spins = absurd (omega arith)
  walk_ends (suc fuel) cursor last count few more spins = elim (ℕ_discrete cursor 0) [
    | yes end ↦ ground (arith, walk-end m fuel cursor last count small end, spins)
    | no some_thread ↦ elim (passing_or m cursor count) [
      | inr fails ↦
          ground (arith, walk-stop m fuel cursor last count small some_thread fails few, spins)
      | inl passes ↦
          walk_ends fuel (m.threads cursor).next cursor (count + 1) (omega (arith, passes.2))
            (omega arith) (sym (walk-pass m fuel cursor last count small passes) ∙ spins)
    ]
  ]
