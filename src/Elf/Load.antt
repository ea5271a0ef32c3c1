-- ===== src/Elf/Load.antt =====
-- The loop over the program headers in `m11_elf64_plan_load` of
-- mcsos/kernel/user/m11_elf_loader.c, from its start to its end.
use safira_uraa.Base.{
  ℕ, zero, suc, ◌+◌, ◌*◌, ◌^◌, ◌<◌, ◌≤◌, ◌≡◌, refl, sym, ap, ◌∙◌, true, false, arith, ◌⊎◌, inl, inr,
  dec_lt, ℕ_discrete, Bool-cases, List, [], ◌∷◌, ◌++◌, length, length-append,
}
use mathlib.Core.Path.{subst}
use safira_uraa.Elf.{
  Status, ok, Region, Segment, Plan, zero_plan, segment_of, add_segment, load_segments, is_ok,
  validate_load_segment,
}
use safira_uraa.Elf.Image.{Ehdr, Bytes, phdr_size}
use safira_uraa.Elf.Checks.{Loadable, validate_load_segment_lem, read_phdr-Fits}
use safira_uraa.Elf.Steps.{
  header, loads, AllLoadable, plan_of, append_one, append_none, add_segment-plan_of, is_ok-true,
  loads_skip, loads_keep, step_skip, step_full, step_bad, step_keep,
}

by_step :
    {r t : Status × Plan}
    → r ≡ t
    → (is_ok t.0 ≡ false → t.1 ≡ zero_plan)
    → is_ok r.0 ≡ false
    → r.1 ≡ zero_plan
by_step e = subst (λ r. is_ok r.0 ≡ false → r.1 ≡ zero_plan) (sym e)

-- The loop, from a plan that holds the segments of the headers before `i`.
module _ (image : List ℕ) (eh : Ehdr) (image_size : ℕ) (region : Region) (entry : ℕ) where
  pub load_segments_complete :
      (rounds i : ℕ) (done : List Segment)
      → Bytes image
      → image_size < 2 ^ 64
      → region.limit < 2 ^ 64
      → AllLoadable image eh image_size region rounds i
      → length done + length (loads image eh rounds i) ≤ 8
      → load_segments image eh image_size region rounds i (plan_of entry done)
        ≡ (ok, plan_of entry (done ++ loads image eh rounds i))
  unfolding load_segments
  load_segments_complete zero i done b hi hl all room =
      ap (λ t. (ok, plan_of entry t)) (sym (append_none done))
  load_segments_complete (suc rounds) i done b hi hl all room =
      let later : AllLoadable image eh image_size region rounds (i + 1) =
        λ j p q. all j (omega arith) (omega arith) in
      let seg : Segment = segment_of (header image eh i) in
      let rest : List Segment = loads image eh rounds (i + 1) in
      elim (ℕ_discrete (header image eh i).p_type 1) [
        | yes load ↦
            let kept = loads_keep image eh image_size region rounds i load in
            let total : length done + suc (length rest) ≤ 8 = omega (arith, ap length kept) in
            let good =
              (validate_load_segment_lem (header image eh i) image_size region
                  (read_phdr-Fits image (eh.e_phoff + i * phdr_size) b) hi hl).1
                (all i (omega arith) (omega arith) load) in
            step_keep image eh image_size region rounds i (plan_of entry done) load (omega arith)
              (ap is_ok good)
            ∙ ap (load_segments image eh image_size region rounds (i + 1))
                (add_segment-plan_of entry done (header image eh i) (omega arith))
            ∙ load_segments_complete rounds (i + 1) (done ++ (seg ∷ [])) b hi hl later
                (omega (arith, length-append done (seg ∷ [])))
            ∙ ap (λ t. (ok, plan_of entry t))
                (append_one done rest seg ∙ ap (λ t. done ++ t) (sym kept))
        | no other ↦
            let skipped = loads_skip image eh image_size region rounds i other in
            step_skip image eh image_size region rounds i (plan_of entry done) other
            ∙ load_segments_complete rounds (i + 1) done b hi hl later
                (omega (arith, ap length skipped))
            ∙ ap (λ t. (ok, plan_of entry (done ++ t))) (sym skipped)
      ]

  -- When the loop succeeds, the headers were loadable and few enough.
  pub load_segments_sound :
      (rounds i : ℕ) (done : List Segment)
      → Bytes image
      → image_size < 2 ^ 64
      → region.limit < 2 ^ 64
      → length done ≤ 8
      → (load_segments image eh image_size region rounds i (plan_of entry done)).0 ≡ ok
      → AllLoadable image eh image_size region rounds i
        × (length done + length (loads image eh rounds i) ≤ 8)
  unfolding load_segments
  load_segments_sound zero i done b hi hl few e =
      ((λ j p q load. absurd (omega arith)), omega arith)
  load_segments_sound (suc rounds) i done b hi hl few e =
      elim (ℕ_discrete (header image eh i).p_type 1) [
        | no other ↦
            let (later, room) = load_segments_sound rounds (i + 1) done b hi hl few (
              ap (λ t. t.0)
                (sym (step_skip image eh image_size region rounds i (plan_of entry done) other))
              ∙ e) in
            (
              λ j p q load. elim (ℕ_discrete j i) [
                | yes same ↦ absurd (other (ap (λ k. (header image eh k).p_type) (sym same) ∙ load))
                | no apart ↦ later j (omega arith) (omega arith) load
              ],
              omega (arith, ap length (loads_skip image eh image_size region rounds i other)),
            )
        | yes load ↦
            keep (load_segments_sound rounds (i + 1) (done ++ (seg ∷ [])) b hi hl) load
              (dec_lt (length done) 8)
              (Bool-cases (is_ok (validate_load_segment (header image eh i) image_size region)))
      ]
    where
      seg : Segment
      seg = segment_of (header image eh i)

      keep :
          (length (done ++ (seg ∷ [])) ≤ 8
            → (load_segments image eh image_size region rounds
                (i + 1)
                (plan_of entry (done ++ (seg ∷ [])))).0
              ≡ ok
            → AllLoadable image eh image_size region rounds (i + 1)
              × (length (done ++ (seg ∷ [])) + length (loads image eh rounds (i + 1)) ≤ 8))
          → (header image eh i).p_type ≡ 1
          → Dec (length done < 8)
          → (is_ok (validate_load_segment (header image eh i) image_size region) ≡ true)
            ⊎ (is_ok (validate_load_segment (header image eh i) image_size region) ≡ false)
          → AllLoadable image eh image_size region (suc rounds) i
            × (length done + length (loads image eh (suc rounds) i) ≤ 8)
      keep again load (no full) good = absurd (
          ground (
            arith,
            e,
            step_full image eh image_size region rounds i (plan_of entry done) load (omega arith),
          ))
      keep again load (yes room) (inr bad) = absurd (
          ground (
            arith,
            e,
            step_bad image eh image_size region rounds i (plan_of entry done) load room bad,
          ))
      keep again load (yes room) (inl good) =
          let one : Loadable (header image eh i) image_size region =
            (validate_load_segment_lem (header image eh i) image_size region
                (read_phdr-Fits image (eh.e_phoff + i * phdr_size) b) hi hl).0
              (is_ok-true _ good) in
          let size : length (done ++ (seg ∷ [])) ≡ length done + 1 =
            length-append done (seg ∷ []) in
          let (later, few_in_all) = again (omega (arith, size)) (
            ap (λ t. t.0)
              (sym (
                step_keep image eh image_size region rounds i (plan_of entry done) load room good
                ∙ ap (load_segments image eh image_size region rounds (i + 1))
                    (add_segment-plan_of entry done (header image eh i) room)))
            ∙ e) in
          (
            λ j p q is. elim (ℕ_discrete j i) [
              | yes same ↦
                  subst (λ k. Loadable (header image eh k) image_size region) (sym same) one
              | no apart ↦ later j (omega arith) (omega arith) is
            ],
            omega (arith, size, ap length (loads_keep image eh image_size region rounds i load)),
          )

  -- When it fails, the plan is cleared.
  pub load_segments_fails :
      (rounds i : ℕ) (plan : Plan)
      → is_ok (load_segments image eh image_size region rounds i plan).0 ≡ false
      → (load_segments image eh image_size region rounds i plan).1 ≡ zero_plan
  unfolding load_segments
  load_segments_fails zero i plan f = absurd (ground arith)
  load_segments_fails (suc rounds) i plan f = elim (ℕ_discrete (header image eh i).p_type 1) [
    | no other ↦
        by_step (step_skip image eh image_size region rounds i plan other)
          (load_segments_fails rounds (i + 1) plan) f
    | yes load ↦ elim (dec_lt plan.segment_count 8) [
      | no full ↦
          by_step (step_full image eh image_size region rounds i plan load (omega arith))
            (λ _. refl) f
      | yes room ↦
          elim (Bool-cases (is_ok (validate_load_segment (header image eh i) image_size region))) [
            | inl good ↦
                by_step (step_keep image eh image_size region rounds i plan load room good)
                  (load_segments_fails rounds (i + 1) (add_segment plan (header image eh i))) f
            | inr bad ↦
                by_step (step_bad image eh image_size region rounds i plan load room bad)
                  (λ _. refl) f
          ]
    ]
  ]
