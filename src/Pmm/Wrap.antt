-- ===== src/Pmm/Wrap.antt =====
-- What the range functions of src/pmm.c do with a range at the end of the address space, where
-- `align_up` wraps to 0.
use safira_uraa.Base.{ℕ, ◌+◌, ◌/◌, ◌^◌, ◌<◌, ◌≤◌, ◌≡◌, true, false, arith, ◌==◌, dec_lt}
use safira_uraa.Pmm.{
  Pmm, used, mark_range_free, mark_range_used, reserve_range, over_range, mark_frame_free,
}
use safira_uraa.Pmm.Inv.{IsValid, mark_frame_free-Marks}
use safira_uraa.Pmm.Range.{
  align_down_page, align_up_wraps, checked_add-fits, checked_add-overflow, over_range-Marks,
}

-- On an initialised allocator, pmm_reserve_range reports success and reserves nothing where a
-- range that is not empty and begins at a 64-bit address ends in the last page of the address
-- space or beyond it.
pub reserve_range-ignores :
    (p : Pmm) (base length : ℕ)
    → p.initialized ≡ true
    → 0 < length
    → base < 2 ^ 64
    → 2 ^ 64 ≤ base + length + 4095
    → reserve_range p base length ≡ (true, p)
unfolding reserve_range mark_range_used over_range
reserve_range-ignores p base length on some_bytes fits high =
    elim (dec_lt (base + length) (2 ^ 64)) [
      | yes l ↦
          ground (arith, checked_add-fits base length l, align_up_wraps (base + length) high l)
      | no m ↦ ground (arith, checked_add-overflow base length fits (omega arith))
    ]

-- On a valid allocator, a usable range that begins in the last page of the address space, behind
-- its first byte, and does not overflow frees every frame of the memory, though none of them
-- lies in the range.
pub mark_range_free-wraps :
    {p : Pmm} (base length : ℕ)
    → IsValid p
    → 0 < length
    → base + length < 2 ^ 64
    → 2 ^ 64 ≤ base + 4095
    → (j : ℕ) → j < p.frame_count
    → used (mark_range_free p base length) j ≡ false
unfolding mark_range_free
mark_range_free-wraps {p} base length v some_bytes fits high j l =
    let test : (length == 0) ≡ false = ground arith in
    let m =
      over_range-Marks false mark_frame_free (λ q w f l. mark_frame_free-Marks w f l) 0
        ((base + length) / 4096) p v in
    rw
      (
        test,
        checked_add-fits base length fits,
        align_up_wraps base high (omega arith),
        align_down_page (base + length) fits,
      )
      (ground (arith, m.frames j, v.span, v.small))
