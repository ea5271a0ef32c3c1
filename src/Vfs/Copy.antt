-- ===== src/Vfs/Copy.antt =====
-- What copying bytes into an array gives.
use safira_uraa.Base.{
  ℕ, zero, suc, ◌+◌, ◌<◌, ◌≤◌, ◌≡◌, ◌⊎◌, inl, refl, sym, ap, ◌∙◌, List, [], ◌∷◌, get_or, set, drop,
  take, length, arith, length-set, get_or-set_self, get_or-set_ne,
}
use mathlib.Core.Path.{ap₂}
use safira_uraa.Vfs.{copy_bytes, head, tail}

pub length-copy_bytes :
    (dst : List ℕ) (at : ℕ) (src : List ℕ) (n : ℕ) → length (copy_bytes dst at src n) ≡ length dst
unfolding copy_bytes
length-copy_bytes dst at src zero = refl
length-copy_bytes dst at src (suc n) =
    length-copy_bytes (set dst at (head src)) (at + 1) (tail src) n ∙ length-set dst at (head src)

-- The rest of the array stays.
pub copy_bytes-outside :
    (dst : List ℕ) (at : ℕ) (src : List ℕ) (n j : ℕ)
    → (j < at) ⊎ (at + n ≤ j)
    → get_or (copy_bytes dst at src n) j 0 ≡ get_or dst j 0
unfolding copy_bytes
copy_bytes-outside dst at src zero j h = refl
copy_bytes-outside dst at src (suc n) j h =
    copy_bytes-outside (set dst at (head src)) (at + 1) (tail src) n j (ground arith)
    ∙ get_or-set_ne dst at j (head src) 0 (ground arith)

take-drop :
    (xs : List ℕ) (at n : ℕ)
    → at < length xs
    → take (suc n) (drop at xs) ≡ get_or xs at 0 ∷ take n (drop (at + 1) xs)
take-drop [] at n h = absurd (omega arith)
take-drop (x ∷ xs) zero n h = refl
take-drop (x ∷ xs) (suc at) n h =
    let shift : suc (at + 1) ≡ suc at + 1 = omega arith in
    take-drop xs at n (omega arith) ∙ ap (λ k. get_or xs at 0 ∷ take n (drop k (x ∷ xs))) shift

-- What was copied is there.
pub copy_bytes-inside :
    (dst : List ℕ) (at : ℕ) (src : List ℕ) (n : ℕ)
    → at + n ≤ length dst
    → n ≤ length src
    → take n (drop at (copy_bytes dst at src n)) ≡ take n src
unfolding copy_bytes
copy_bytes-inside dst at src zero h e = refl
copy_bytes-inside dst at [] (suc n) h e = absurd (omega arith)
copy_bytes-inside dst at (c ∷ src) (suc n) h e =
    let first : List ℕ = set dst at c in
    take-drop (copy_bytes first (at + 1) src n) at n
      (omega (arith, length-copy_bytes first (at + 1) src n, length-set dst at c))
    ∙ ap₂ (λ (x : ℕ) (xs : List ℕ). x ∷ xs)
        (copy_bytes-outside first (at + 1) src n at (inl (omega arith))
          ∙ get_or-set_self dst at c 0 (omega arith))
        (copy_bytes-inside first (at + 1) src n (omega (arith, length-set dst at c)) (omega arith))

pub take-all : (xs : List ℕ) → take (length xs) xs ≡ xs
take-all [] = refl
take-all (x ∷ xs) = ap (λ ys. x ∷ ys) (take-all xs)

-- Arrays that agree on a range have the same bytes there.
pub take-drop_cong :
    (xs ys : List ℕ) (at n : ℕ)
    → at + n ≤ length xs
    → length xs ≡ length ys
    → ((k : ℕ) → at ≤ k → k < at + n → get_or xs k 0 ≡ get_or ys k 0)
    → take n (drop at xs) ≡ take n (drop at ys)
take-drop_cong xs ys at zero h e same = refl
take-drop_cong xs ys at (suc n) h e same =
    take-drop xs at n (omega arith)
    ∙ ap₂ (λ (x : ℕ) (zs : List ℕ). x ∷ zs) (same at (omega arith) (omega arith))
        (take-drop_cong xs ys (at + 1) n (omega arith) e
          (λ k p q. same k (omega arith) (omega arith)))
    ∙ sym (take-drop ys at n (omega (arith, e)))
