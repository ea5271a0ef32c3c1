-- ===== src/Elf/Finish.antt =====
-- The end of `m11_elf64_plan_load` of mcsos/kernel/user/m11_elf_loader.c, after each outcome of its
-- loop.
use safira_uraa.Base.{
  ℕ, ◌^◌, ◌<◌, ◌≤◌, ◌≡◌, refl, ap, ◌∙◌, true, false, arith, ◌⊎◌, inl, inr, ℕ_discrete, Bool-cases,
  List, [], ◌∷◌, length,
}
use safira_uraa.Elf.{
  Status, ok, err_segcount, Region, Plan, zero_plan, finish, is_ok, load_segments, Segment,
}
use safira_uraa.Elf.Image.{Ehdr, Bytes}
use safira_uraa.Elf.Load.{load_segments_complete, load_segments_sound, load_segments_fails}
use safira_uraa.Elf.Steps.{AllLoadable, loads, plan_of, is_ok-true}

pub nil_of : (xs : List Segment) → length xs ≡ 0 → xs ≡ []
nil_of [] e = refl
nil_of (x ∷ xs) e = absurd (omega arith)

-- What `finish` does after each outcome of the loop.
module _ (image : List ℕ) (eh : Ehdr) (image_size : ℕ) (region : Region) where
  start : Plan
  start = plan_of eh.e_entry []

  abbrev pub found : List Segment
  found = loads image eh eh.e_phnum 0

  loop : Status × Plan
  unfolding start
  loop = load_segments image eh image_size region eh.e_phnum 0 start

  finish_bad : is_ok loop.0 ≡ false → finish image eh image_size region ≡ loop
  unfolding finish loop start
  finish_bad bad = ground arith

  finish_empty :
      {p : Plan}
      → loop ≡ (ok, p)
      → p.segment_count ≡ 0
      → finish image eh image_size region ≡ (err_segcount, p)
  unfolding finish loop start
  finish_empty at none_found = ground arith

  finish_full :
      {p : Plan}
      → loop ≡ (ok, p)
      → 0 < p.segment_count
      → finish image eh image_size region ≡ (ok, p)
  unfolding finish loop start
  finish_full at some_found = ground arith

  module _ (b : Bytes image) (hi : image_size < 2 ^ 64) (hl : region.limit < 2 ^ 64) where
    looped :
        AllLoadable image eh image_size region eh.e_phnum 0
        → length found ≤ 8
        → loop ≡ (ok, plan_of eh.e_entry found)
    unfolding loop start
    looped all few =
        load_segments_complete image eh image_size region eh.e_entry eh.e_phnum 0 [] b hi hl all
          (omega (arith, few))

    loop_sound :
        is_ok loop.0 ≡ true
        → AllLoadable image eh image_size region eh.e_phnum 0 × (length found ≤ 8)
    unfolding loop start
    loop_sound good =
        let (all, few) =
          load_segments_sound image eh image_size region eh.e_entry eh.e_phnum 0 [] b hi hl
            (omega arith) (is_ok-true _ good) in
        (all, omega (arith, few))

    loop_fails : is_ok loop.0 ≡ false → loop.1 ≡ zero_plan
    unfolding loop start
    loop_fails =
        load_segments_fails image eh image_size region eh.e_entry eh.e_phnum 0
          (plan_of eh.e_entry [])

    pub finish_complete :
        AllLoadable image eh image_size region eh.e_phnum 0
        → 0 < length found
        → length found ≤ 8
        → finish image eh image_size region ≡ (ok, plan_of eh.e_entry found)
    finish_complete all some_found few = finish_full (looped all few) some_found

    pub finish_none :
        AllLoadable image eh image_size region eh.e_phnum 0
        → found ≡ []
        → finish image eh image_size region ≡ (err_segcount, plan_of eh.e_entry [])
    finish_none all empty =
        finish_empty
          (looped all (omega (arith, ap length empty)) ∙ ap (λ q. (ok, plan_of eh.e_entry q)) empty)
          refl

    pub finish_lem :
        ((AllLoadable image eh image_size region eh.e_phnum 0
            × (0 < length found)
            × (length found ≤ 8))
          × (finish image eh image_size region ≡ (ok, plan_of eh.e_entry found)))
        ⊎ ((is_ok (finish image eh image_size region).0 ≡ false)
            × (((finish image eh image_size region).1 ≡ zero_plan)
                ⊎ ((found ≡ []) × ((finish image eh image_size region).1 ≡ plan_of eh.e_entry []))))
    finish_lem = elim (Bool-cases (is_ok loop.0)) [
      | inr bad ↦ inr (
        ap (λ r. is_ok r.0) (finish_bad bad) ∙ bad,
        inl (ap (λ r. r.1) (finish_bad bad) ∙ loop_fails bad),
      )
      | inl good ↦
          let (all, few) = loop_sound good in
          let at = looped all few in
          elim (ℕ_discrete (length found) 0) [
            | yes none_found ↦
                let empty = nil_of found none_found in
                inr (
                  ap (λ r. is_ok r.0) (finish_empty at none_found),
                  inr (
                    empty,
                    ap (λ r. r.1) (finish_empty at none_found) ∙ ap (plan_of eh.e_entry) empty,
                  ),
                )
            | no some_found ↦ inl ((all, omega arith, few), finish_full at (omega arith))
          ]
    ]
