-- ===== src/Pmm/Tests.antt =====
-- The frame allocator of src/pmm.c on a small memory map.
use safira_uraa.Base.{
  ℕ, zero, suc, ◌+◌, ◌*◌, ◌/◌, ◌%◌, ◌<◌, ◌≡◌, ◌≢◌, refl, true, false, some, List, [], ◌∷◌, arith,
  ◌==◌, if◌then◌else◌, ◌↔◌, ◌⊎◌, ◌&&◌,
}
use mathlib.Core.Path.{subst}
use safira_uraa.Pmm.{
  Pmm, Region, used, init_from_map, zero_state, alloc_frame, free_frame, reserve_range,
  mark_range_free, mark_range_used, checked_add, over_range, align_up, align_down, for_frames,
  mark_frame_free, mark_frame_used, reserve_frame,
}
use safira_uraa.Pmm.Bitmap.{Bytes, bitmap_test, bitmap_set, bitmap_clear}
use safira_uraa.Pmm.Inv.{IsValid}
use safira_uraa.Pmm.Init.{init_from_map_lem, init_from_map-Accepts, Accepts}
use safira_uraa.Pmm.Alloc.{alloc_frame_lem, free_frame_lem}
use safira_uraa.Pmm.Spec
use safira_uraa.Pmm.Spec.{alloc, free, reserve, is_free, address, nothing, done}
use safira_uraa.Pmm.Trace.{calls, calls_refine}
use safira_uraa.Pmm.Wrap.{reserve_range-ignores, mark_range_free-wraps}

-- Sixteen frames: frames 1 to 5 usable, and one byte of frame 3 taken.
abbrev regions : List Region
regions =
    record { base = 0x800; length = 0x5800; kind = 1 }
    ∷ record { base = 0x3010; length = 1; kind = 2 }
    ∷ []

abbrev storage : List ℕ
storage = 7 ∷ 9 ∷ []

storage-Bytes : Bytes storage
storage-Bytes zero = omega arith
storage-Bytes (suc zero) = omega arith
storage-Bytes (suc (suc k)) = omega arith

abbrev booted : Pmm
booted = record {
  bitmap = 0xc9 ∷ 0xff ∷ [];
  bitmap_bytes = 2;
  max_phys = 0x10000;
  frame_count = 16;
  free_frames = 4;
  used_frames = 12;
  reserved_frames = 1;
  ignored_frames = 0;
  next_hint = 0;
  initialized = true;
}

boots : init_from_map zero_state regions storage 2 0x10000 ≡ (true, booted)
unfolding init_from_map mark_range_used mark_range_free checked_add over_range align_up align_down
    for_frames mark_frame_free mark_frame_used reserve_frame bitmap_test bitmap_set bitmap_clear
boots = refl

accepted : Accepts regions 2 0x10000
accepted = omega arith

-- Frame 3 is usable, but a reserved byte lies in it.
init_from_map_lem_example :
    let (ok, q) = init_from_map zero_state regions storage 2 0x10000 in
    (ok ≡ true)
    × IsValid q
    × (q.initialized ≡ true)
    × (q.frame_count ≡ 0x10000 / 4096)
    × (used q 3 ≡ true)
init_from_map_lem_example =
    init_from_map_lem zero_state regions storage 2 0x10000 accepted (omega arith) (omega arith)
      storage-Bytes (omega arith) 3 (omega arith)

booted-IsValid : IsValid booted
booted-IsValid = subst (λ r. IsValid r.1) boots init_from_map_lem_example.1

init_from_map-Accepts_example :
    (((init_from_map zero_state regions storage 1 0x10000).0 ≡ true) ↔ Accepts regions 1 0x10000)
    × ((init_from_map zero_state regions storage 1 0x10000 ≡ (false, zero_state))
        ↔ (¬ Accepts regions 1 0x10000))
init_from_map-Accepts_example = init_from_map-Accepts zero_state regions storage 1 0x10000

alloc_frame_lem_example :
    let (a, q) = alloc_frame booted in
    (f : ℕ) × (Spec.lowest (used booted) 16 ≡ some f)
    × (a ≡ f * 4096)
    × IsValid q
    × (q.free_frames + 1 ≡ 4)
    × ((j : ℕ) → used q j ≡ (if f == j then true else used booted j))
alloc_frame_lem_example = alloc_frame_lem booted-IsValid refl (omega arith)

free_frame_lem_example :
    let (ok, q) = free_frame booted 0x3000 in
    ((ok ≡ true) ↔ (
      ◌≡◌ {A = ℕ} (0x3000 % 4096) 0
      × ◌≢◌ {A = ℕ} 0x3000 0
      × (0x3000 < 0x10000)
      × (used booted 3 ≡ true)))
    × IsValid q
    × (used q 3 ≡ (if ok && 3 == 3 then false else used booted 3))
    × ((ok ≡ true) ⊎ (free_frame booted 0x3000 ≡ (false, booted)))
free_frame_lem_example = free_frame_lem booted-IsValid refl 0x3000 3

abbrev script : List Spec.Op
script =
    alloc
    ∷ alloc
    ∷ free 0x1000
    ∷ free 0x1000
    ∷ reserve 0x1fff 2
    ∷ alloc
    ∷ is_free 0x5000
    ∷ alloc
    ∷ free 0
    ∷ []

calls_refine_example : calls booted script ≡ Spec.run 16 (used booted) script
calls_refine_example = calls_refine script (omega arith) booted-IsValid refl

script_replies :
    Spec.run 16 (used booted) script
    ≡ address 0x1000
      ∷ address 0x2000
      ∷ done true
      ∷ done false
      ∷ done true
      ∷ address 0x4000
      ∷ done true
      ∷ address 0x5000
      ∷ done false
      ∷ []
unfolding Spec.run Spec.step Spec.lowest bitmap_test
script_replies = refl

reserve_range-ignores_example : reserve_range booted 0x1000 0xffffffffffffefff ≡ (true, booted)
reserve_range-ignores_example =
    reserve_range-ignores booted 0x1000 0xffffffffffffefff refl (omega arith) (omega arith)
      (omega arith)

mark_range_free-wraps_example : used (mark_range_free booted 0xfffffffffffff001 1) 9 ≡ false
mark_range_free-wraps_example =
    mark_range_free-wraps 0xfffffffffffff001 1 booted-IsValid (omega arith) (omega arith)
      (omega arith) 9 (omega arith)
