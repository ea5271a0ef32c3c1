-- ===== src/Vmm/Cells.antt =====
-- Memory as the tables of src/vmm.c see it: writes of an entry and of a whole page.
use safira_uraa.Base.{
  ℕ, zero, suc, ◌+◌, ◌*◌, ◌<◌, ◌≤◌, ◌≡◌, ◌≢◌, refl, sym, ap, ◌∙◌, arith, update_self, update_ne,
  ◌⊎◌, inl, inr, ℕ_discrete,
}
use safira_uraa.Vmm.{Memory, entry, store_entry, zero_from, zero_page}

-- The pages at two addresses do not overlap.
abbrev pub Apart : ℕ → ℕ → Type 0
Apart p q = (p + 4096 ≤ q) ⊎ (q + 4096 ≤ p)

module _ (memory : Memory) (t i e : ℕ) where
  pub store_self : entry (store_entry memory t i e) t i ≡ e
  store_self = update_self memory (t + 8 * i) e

  pub store-index : (j : ℕ) → i ≢ j → entry (store_entry memory t i e) t j ≡ entry memory t j
  store-index j ne = update_ne memory (t + 8 * i) e (t + 8 * j) (λ same. ne (omega (arith, same)))

  pub store-apart :
      (u j : ℕ)
      → Apart t u
      → i < 512
      → j < 512
      → entry (store_entry memory t i e) u j ≡ entry memory u j
  store-apart u j (inl below) a b =
      update_ne memory (t + 8 * i) e (u + 8 * j) (λ same. absurd (omega (arith, same)))
  store-apart u j (inr above) a b =
      update_ne memory (t + 8 * i) e (u + 8 * j) (λ same. absurd (omega (arith, same)))

zero_from-other :
    (n : ℕ) (memory : Memory) (page i a : ℕ)
    → ((j : ℕ) → i ≤ j → j < i + n → a ≢ page + 8 * j)
    → zero_from memory page i n a ≡ memory a
unfolding zero_from
zero_from-other zero memory page i a out = refl
zero_from-other (suc n) memory page i a out =
    zero_from-other n (store_entry memory page i 0) page (i + 1) a
      (λ j low high. out j (omega arith) (omega arith))
    ∙ update_ne memory (page + 8 * i) 0 a (λ same. out i (omega arith) (omega arith) (sym same))

zero_from_self :
    (n : ℕ) (memory : Memory) (page i j : ℕ)
    → i ≤ j
    → j < i + n
    → entry (zero_from memory page i n) page j ≡ 0
unfolding zero_from
zero_from_self zero memory page i j low high = absurd (omega arith)
zero_from_self (suc n) memory page i j low high = elim (ℕ_discrete i j) [
  | yes here ↦
      zero_from-other n (store_entry memory page i 0) page (i + 1) (page + 8 * j)
        (λ k after _ same. absurd (omega (arith, here, after, same)))
      ∙ ap (λ k. store_entry memory page i 0 (page + 8 * k)) (sym here)
      ∙ store_self memory page i 0
  | no later ↦
      zero_from_self n (store_entry memory page i 0) page (i + 1) j (omega (arith, later))
        (omega arith)
]

module _ (memory : Memory) (page : ℕ) where
  pub zero_page_self : (j : ℕ) → j < 512 → entry (zero_page memory page) page j ≡ 0
  unfolding zero_page
  zero_page_self j h = zero_from_self 512 memory page 0 j (omega arith) (omega arith)

  pub zero_page-apart :
      (u j : ℕ) → Apart page u → j < 512 → entry (zero_page memory page) u j ≡ entry memory u j
  unfolding zero_page
  zero_page-apart u j (inl below) h =
      zero_from-other 512 memory page 0 (u + 8 * j)
        (λ k _ few same. absurd (omega (arith, few, same)))
  zero_page-apart u j (inr above) h =
      zero_from-other 512 memory page 0 (u + 8 * j)
        (λ k _ few same. absurd (omega (arith, few, same)))
