-- ===== src/Vmm/Bits.antt =====
-- The fields of an entry of a page table, and the indices in an address, of src/vmm.c.
use safira_uraa.Base.{
  ℕ, ◌-◌, ◌*◌, ◌/◌, ◌%◌, ◌^◌, ◌<◌, ◌≡◌, refl, sym, ap, ◌∙◌, true, arith, ◌==◌, bit_and, bit_or,
}
use safira_uraa.Base.Words.{not64, and_page, and_not_page}
use safira_uraa.Base.Bits.{and_mask, and-zero}
use safira_uraa.Base.Masks.{and_assoc, and_or, or-zero}
use safira_uraa.Vmm.{
  pte_present, pte_huge, pte_addr_mask, is_canonical, is_aligned_4k, idx_pml4, idx_pdpt, idx_pd,
  idx_pt, table_entry, page_entry, allowed,
}

-- A field of a field.
field : (x a b c : ℕ) → bit_and a b ≡ c → bit_and (bit_and x a) b ≡ bit_and x c
field x a b c e = and_assoc x a b ∙ ap (bit_and x) e

-- An entry field by field.
module _ (x a b c : ℕ) where
  parts :
      (mask : ℕ)
      → bit_and (bit_or (bit_or (bit_and x a) b) c) mask
        ≡ bit_or (bit_or (bit_and x (bit_and a mask)) (bit_and b mask)) (bit_and c mask)
  parts mask =
      and_or (bit_or (bit_and x a) b) c mask
      ∙ ap (λ z. bit_or z (bit_and c mask)) (and_or (bit_and x a) b mask)
      ∙ ap (λ z. bit_or (bit_or z (bit_and b mask)) (bit_and c mask)) (and_assoc x a mask)

pub table_entry_lem :
    (p : ℕ)
    → (bit_and (table_entry p) pte_present ≡ 1)
      × (bit_and (table_entry p) pte_huge ≡ 0)
      × (bit_and (table_entry p) pte_addr_mask ≡ bit_and p pte_addr_mask)
table_entry_lem p = (
  parts p pte_addr_mask 1 2 1 ∙ rw (and-zero p) refl,
  parts p pte_addr_mask 1 2 pte_huge ∙ rw (and-zero p) refl,
  parts p pte_addr_mask 1 2 pte_addr_mask
      ∙ or-zero (bit_or (bit_and p pte_addr_mask) 0)
      ∙ or-zero (bit_and p pte_addr_mask),
)

pub page_entry_lem :
    (p flags : ℕ)
    → (bit_and (page_entry p flags) pte_present ≡ 1)
      × (bit_and (page_entry p flags) pte_addr_mask ≡ bit_and p pte_addr_mask)
      × (bit_and (page_entry p flags) (not64 pte_addr_mask) ≡ bit_or 1 (bit_and flags allowed))
page_entry_lem p flags =
    let f : ℕ = bit_and flags allowed in
    (
      parts p pte_addr_mask 1 f 1
          ∙ rw (and-zero p, field flags allowed 1 0 refl, and-zero flags) refl,
      parts p pte_addr_mask 1 f pte_addr_mask
          ∙ rw (field flags allowed pte_addr_mask 0 refl, and-zero flags)
              (or-zero (bit_or (bit_and p pte_addr_mask) 0) ∙ or-zero (bit_and p pte_addr_mask)),
      parts p pte_addr_mask 1 f (not64 pte_addr_mask)
          ∙ rw (and-zero p, field flags allowed (not64 pte_addr_mask) allowed refl) refl,
    )

-- The address in an entry is that of a frame.
pub address_aligned : (e : ℕ) → is_aligned_4k (bit_and e pte_addr_mask) ≡ true
address_aligned e = rw (field e pte_addr_mask 4095 0 refl, and-zero e) refl

pub address_frame : (p : ℕ) → p < 2 ^ 52 → is_aligned_4k p ≡ true → bit_and p pte_addr_mask ≡ p
address_frame p h aligned =
    let low : p % 4096 ≡ 0 = sym (and_page p) ∙ ground (arith, aligned) in
    sym (field p (2 ^ 52 - 1) (not64 4095) pte_addr_mask refl)
    ∙ rw (and_mask 52 p) (and_not_page (p % 2 ^ 52) (omega arith) ∙ omega (arith, low))

-- Only the low 52 bits of a physical address matter.
pub low_frame :
    (p flags : ℕ)
    → (is_aligned_4k (p % 2 ^ 52) ≡ is_aligned_4k p)
      × (page_entry (p % 2 ^ 52) flags ≡ page_entry p flags)
low_frame p flags =
    let low : p % 2 ^ 52 ≡ bit_and p (2 ^ 52 - 1) = sym (and_mask 52 p) in
    let address : bit_and (p % 2 ^ 52) pte_addr_mask ≡ bit_and p pte_addr_mask =
      ap (λ x. bit_and x pte_addr_mask) low
      ∙ field p (2 ^ 52 - 1) pte_addr_mask pte_addr_mask refl in
    let rest : bit_and (p % 2 ^ 52) 4095 ≡ bit_and p 4095 =
      ap (λ x. bit_and x 4095) low ∙ field p (2 ^ 52 - 1) 4095 4095 refl in
    (ap (λ x. x == 0) rest, ap (λ x. bit_or (bit_or x pte_present) (bit_and flags allowed)) address)

pub index_small :
    (v : ℕ) → (idx_pml4 v < 512) × (idx_pdpt v < 512) × (idx_pd v < 512) × (idx_pt v < 512)
index_small v = (
  omega (arith, and_mask 9 (v / 2 ^ 39)),
  omega (arith, and_mask 9 (v / 2 ^ 30)),
  omega (arith, and_mask 9 (v / 2 ^ 21)),
  omega (arith, and_mask 9 (v / 2 ^ 12)),
)

-- The address of a page: what the code accepts.
abbrev pub Page : ℕ → Type 0
Page v = (is_canonical v ≡ true) × (is_aligned_4k v ≡ true)

canonical_lem : (v : ℕ) → is_canonical v ≡ true → v / 2 ^ 48 ≡ v / 2 ^ 47 % 2 * 65535
unfolding is_canonical
canonical_lem v h = ground (arith, and_mask 1 (v / 2 ^ 47), h)

-- A page is told by its four indices.
pub index_injective :
    (v w : ℕ)
    → Page v
    → Page w
    → idx_pml4 v ≡ idx_pml4 w
    → idx_pdpt v ≡ idx_pdpt w
    → idx_pd v ≡ idx_pd w
    → idx_pt v ≡ idx_pt w
    → v ≡ w
index_injective v w (cv, av) (cw, aw) a b c d =
    let v0 : v % 4096 ≡ 0 = sym (and_page v) ∙ ground (arith, av) in
    let w0 : w % 4096 ≡ 0 = sym (and_page w) ∙ ground (arith, aw) in
    let a1 : v / 2 ^ 39 % 512 ≡ w / 2 ^ 39 % 512 =
      sym (and_mask 9 (v / 2 ^ 39)) ∙ a ∙ and_mask 9 (w / 2 ^ 39) in
    let b1 : v / 2 ^ 30 % 512 ≡ w / 2 ^ 30 % 512 =
      sym (and_mask 9 (v / 2 ^ 30)) ∙ b ∙ and_mask 9 (w / 2 ^ 30) in
    let c1 : v / 2 ^ 21 % 512 ≡ w / 2 ^ 21 % 512 =
      sym (and_mask 9 (v / 2 ^ 21)) ∙ c ∙ and_mask 9 (w / 2 ^ 21) in
    let d1 : v / 2 ^ 12 % 512 ≡ w / 2 ^ 12 % 512 =
      sym (and_mask 9 (v / 2 ^ 12)) ∙ d ∙ and_mask 9 (w / 2 ^ 12) in
    let cv1 = canonical_lem v cv in
    let cw1 = canonical_lem w cw in
    let v47 : v / 2 ^ 47 ≡ w / 2 ^ 47 = omega arith in
    let v39 : v / 2 ^ 39 ≡ w / 2 ^ 39 = omega arith in
    let v30 : v / 2 ^ 30 ≡ w / 2 ^ 30 = omega arith in
    let v21 : v / 2 ^ 21 ≡ w / 2 ^ 21 = omega arith in
    let v12 : v / 2 ^ 12 ≡ w / 2 ^ 12 = omega arith in omega arith
