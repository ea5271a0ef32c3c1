-- ===== src/Vmm/Grow.antt =====
-- `get_or_alloc_next_table` of src/vmm.c: one level down, with a new table where there is none.
use safira_uraa.Base.{
  ℕ, ◌<◌, ◌≡◌, ◌≢◌, refl, sym, ap, ◌∙◌, Bool, true, false, Option, none, some, List, [], ◌∷◌,
  length, arith, bit_and, ◌⊎◌, inl, inr, Bool-cases, ℕ_discrete, update, update_self, update_ne,
}
use safira_uraa.Vmm.{
  Space, Store, Memory, Found, missing, at, err_nomem, err_exists, err_not_found, entry,
  store_entry, zero_page, pte_present, pte_huge, pte_addr_mask, is_aligned_4k, table_entry,
  alloc_table, get_or_alloc_next_table, follow,
}
use safira_uraa.Vmm.Bits.{address_aligned, address_frame, table_entry_lem}
use safira_uraa.Vmm.Cells.{
  Apart, store_self, store-index, store-apart, zero_page_self, zero_page-apart,
}
use safira_uraa.Vmm.Tree.{leads, Separate, Tree, Reaches, follow-leads, follow-ends}
use safira_uraa.Vmm.Reach.{climb, Small, Grown, view-Grown, climb-Grown}
use safira_uraa.Vmm.Frames.{usable, Frames, Trusted, Denied, Down}

module _ {W : Type 0} (space : Space W) (virt : ℕ → ℕ) (owned : W → ℕ → Bool) where
  -- The allocator is asked.
  module _ (separate : Separate virt) (m : Store W) (place : ℕ → Option (List ℕ))
      (tree : Tree space virt owned m place) (p : ℕ) (q : List ℕ) (i : ℕ) (here : place p ≡ some q)
      (short : length q < 3) (small : i < 512) (low : Small q)
      (onway : climb space m.memory q ≡ at (virt p)) where
    e : ℕ
    e = entry m.memory (virt p) i

    ends : leads e ≡ false → climb space m.memory (i ∷ q) ≡ missing err_not_found
    unfolding e
    ends free =
        ap (λ found. follow space m.memory found i) onway
        ∙ follow-ends space virt tree.virt_is m.memory (virt p) i free

    module _ (alloc : W → ℕ × W) (frames : Frames alloc virt owned) where
      taken : Store W
      taken = record m { ctx = (alloc m.ctx).1 }

      -- The tree is a tree still when the allocator has been asked in vain.
      taken-Tree : Tree space virt owned taken place
      unfolding taken
      taken-Tree = record {
        virt_is = tree.virt_is;
        root = tree.root;
        aligned = tree.aligned;
        mapped = tree.mapped;
        held = λ a r h. frames.stays m.ctx a (tree.held a r h);
        child = tree.child;
      }

      module _ (good : usable (alloc m.ctx).0 ≡ true) (free : leads e ≡ false) where
        f : ℕ
        f = (alloc m.ctx).0

        after : Memory
        after = store_entry (zero_page m.memory (virt f)) (virt p) i (table_entry f)

        place_after : ℕ → Option (List ℕ)
        place_after = update place f (some (i ∷ q))

        f_aligned : is_aligned_4k f ≡ true
        unfolding f
        f_aligned = ground (arith, good)

        fresh : (a : ℕ) (r : List ℕ) → place a ≡ some r → f ≢ a
        unfolding f
        fresh a r h same =
            ground (arith, frames.fresh m.ctx good, ap (owned m.ctx) same, tree.held a r h)

        apart :
            (a b : ℕ) (r s : List ℕ)
            → place a ≡ some r
            → place b ≡ some s
            → a ≢ b
            → Apart (virt a) (virt b)
        apart a b r s ha hb =
            separate a b (tree.aligned a r ha) (tree.aligned b s hb) (tree.mapped a r ha)
              (tree.mapped b s hb)

        new_apart : (a : ℕ) (r : List ℕ) → place a ≡ some r → Apart (virt f) (virt a)
        unfolding f
        new_apart a r h =
            separate f a f_aligned (tree.aligned a r h) (frames.mapped m.ctx good)
              (tree.mapped a r h) (fresh a r h)

        turned : {a b : ℕ} → Apart a b → Apart b a
        turned (inl x) = inr x
        turned (inr x) = inl x

        kept :
            (a : ℕ) (r : List ℕ) (j : ℕ)
            → place a ≡ some r
            → j < 512
            → (a ≢ p) ⊎ (j ≢ i)
            → entry after (virt a) j ≡ entry m.memory (virt a) j
        unfolding after
        kept a r j h s other =
            let zeroed = zero_page-apart m.memory (virt f) (virt a) j (new_apart a r h) s in
            elim (ℕ_discrete p a) [
              | no elsewhere ↦
                  store-apart (zero_page m.memory (virt f)) (virt p) i (table_entry f) (virt a) j
                    (apart p a q r here h elsewhere) small s
                  ∙ zeroed
              | yes same ↦
                  let index : i ≢ j = λ eq. at_other other (sym same) (sym eq) in
                  ap (λ b. entry after (virt b) j) (sym same)
                  ∙ store-index (zero_page m.memory (virt f)) (virt p) i (table_entry f) j index
                  ∙ ap (λ b. entry (zero_page m.memory (virt f)) (virt b) j) same
                  ∙ zeroed
            ]
          where
            at_other : {j : ℕ} {a : ℕ} → (a ≢ p) ⊎ (j ≢ i) → a ≡ p → j ≢ i
            at_other (inl x) y z = x y
            at_other (inr x) y z = x z

        written : entry after (virt p) i ≡ table_entry f
        unfolding after
        written = store_self (zero_page m.memory (virt f)) (virt p) i (table_entry f)

        target : bit_and (entry after (virt p) i) pte_addr_mask ≡ f
        unfolding f
        target =
            ap (λ x. bit_and x pte_addr_mask) written
            ∙ (table_entry_lem f).2
            ∙ address_frame f (frames.fits m.ctx good) f_aligned

        opens : leads (entry after (virt p) i) ≡ true
        opens =
            let (present, huge, _) = table_entry_lem f in rw written (ground (arith, present, huge))

        blank : (j : ℕ) → j < 512 → entry after (virt f) j ≡ 0
        unfolding after
        blank j s =
            store-apart (zero_page m.memory (virt f)) (virt p) i (table_entry f) (virt f) j
              (turned (new_apart p q here)) small s
            ∙ zero_page_self m.memory (virt f) j s

        grown : Grown tree after p i f
        unfolding e f
        grown = record {
          upper = q;
          above = here;
          short = short;
          ended = free;
          opens = opens;
          target = target;
          mapped = frames.mapped m.ctx good;
          blank = blank;
          kept = kept;
        }

        stays : (a : ℕ) (r : List ℕ) → place a ≡ some r → place_after a ≡ some r
        unfolding place_after
        stays a r h = update_ne place f (some (i ∷ q)) a (fresh a r h) ∙ h

        -- Where a table stands after it.
        stood :
            (a : ℕ) (r : List ℕ)
            → place_after a ≡ some r
            → ((a ≡ f) × (r ≡ i ∷ q)) ⊎ (place a ≡ some r)
        unfolding place_after
        stood a r h = elim (ℕ_discrete f a) [
          | yes same ↦
              let there : some (i ∷ q) ≡ some r =
                sym (update_self place f (some (i ∷ q))) ∙ ap place_after same ∙ h in
              inl (sym same, sym (some_injective there))
          | no other ↦ inr (sym (update_ne place f (some (i ∷ q)) a other) ∙ h)
        ]
          where
            some_injective : {a b : List ℕ} → some a ≡ some b → a ≡ b
            some_injective {a} {b} same = ap (λ o. elim o [ none ↦ a | some z ↦ z ]) same

        after_store : Store W
        after_store = record taken { memory = after }

        grown_child :
            (a : ℕ) (r : List ℕ) (j : ℕ)
            → place_after a ≡ some r
            → length r < 3
            → j < 512
            → leads (entry after (virt a) j) ≡ true
            → place_after (bit_and (entry after (virt a) j) pte_addr_mask) ≡ some (j ∷ r)
        unfolding place_after
        grown_child a r j h deep s l = elim (stood a r h) [
          | inl (same, _) ↦ absurd (
              ground
                (arith, l, ap (λ b. leads (entry after (virt b) j)) same, ap leads (blank j s)))
          | inr old ↦ elim (ℕ_discrete a p) [
            | no other ↦ below old (kept a r j old s (inl other))
            | yes same ↦ elim (ℕ_discrete j i) [
              | no other ↦ below old (kept a r j old s (inr other))
              | yes index ↦
                  rw (same, index)
                    (ap place_after target
                      ∙ update_self place f (some (i ∷ q))
                      ∙ ap (λ (o : Option (List ℕ)). elim o [ none ↦ none | some z ↦ some (i ∷ z) ])
                          (sym here ∙ ap place (sym same) ∙ old))
            ]
          ]
        ]
          where
            below :
                place a ≡ some r
                → entry after (virt a) j ≡ entry m.memory (virt a) j
                → place_after (bit_and (entry after (virt a) j) pte_addr_mask) ≡ some (j ∷ r)
            below old same =
                ap (λ x. place_after (bit_and x pte_addr_mask)) same
                ∙ stays (bit_and (entry m.memory (virt a) j) pte_addr_mask) (j ∷ r)
                    (tree.child a r j old deep s (ap leads (sym same) ∙ l))

        after-Tree : Tree space virt owned after_store place_after
        unfolding after_store taken f
        after-Tree = record {
          virt_is = tree.virt_is;
          root = stays space.root_paddr [] tree.root;
          aligned = λ a r h. elim (stood a r h) [
            | inl (same, _) ↦ ap is_aligned_4k same ∙ f_aligned
            | inr old ↦ tree.aligned a r old
          ];
          mapped = λ a r h. elim (stood a r h) [
            | inl (same, _) ↦ λ null. frames.mapped m.ctx good (ap virt (sym same) ∙ null)
            | inr old ↦ tree.mapped a r old
          ];
          held = λ a r h. elim (stood a r h) [
            | inl (same, _) ↦ ap (owned (alloc m.ctx).1) same ∙ frames.taken m.ctx good
            | inr old ↦ frames.stays m.ctx a (tree.held a r old)
          ];
          child = grown_child;
        }

        f_mapped : virt f ≢ 0
        unfolding f
        f_mapped = frames.mapped m.ctx good

        new_way : climb space after (i ∷ q) ≡ at (virt f)
        new_way =
            ap (λ found. follow space after found i)
              (climb-Grown tree after p i f grown q (virt p) (omega arith) low onway)
            ∙ follow-leads space virt tree.virt_is after (virt p) i opens (rw target f_mapped)
            ∙ ap (λ a. at (virt a)) target

        new_place : place_after f ≡ some (i ∷ q)
        unfolding place_after
        new_place = update_self place f (some (i ∷ q))

        grown_Down : Down space virt owned m (at (virt f), after_store) (i ∷ q)
        unfolding after_store taken
        grown_Down = record {
          place = place_after;
          tree = after-Tree;
          views = view-Grown tree after p i f grown;
          flushed = refl;
          result = inr ((f, refl, new_place), new_way);
        }

        -- What the code does with the frame.
        grows : alloc_table space (some alloc) m (virt p) i ≡ (at (virt f), after_store)
        unfolding alloc_table after_store taken after f
        grows = rw (tree.virt_is, f_aligned_raw) (ground (arith, good, frames.mapped m.ctx good))
          where
            f_aligned_raw : is_aligned_4k (alloc m.ctx).0 ≡ true
            f_aligned_raw = f_aligned

      in_vain :
          usable (alloc m.ctx).0 ≡ false
          → alloc_table space (some alloc) m (virt p) i ≡ (missing err_nomem, taken)
      unfolding alloc_table taken
      in_vain bad = ground (arith, bad)

      asked_Down :
          leads e ≡ false
          → Down space virt owned m (alloc_table space (some alloc) m (virt p) i) (i ∷ q)
      unfolding taken
      asked_Down free = elim (Bool-cases (usable (alloc m.ctx).0)) [
        | inl good ↦ rw (grows good free) (grown_Down good free)
        | inr bad ↦ rw (in_vain bad) (record {
          place = place;
          tree = taken-Tree;
          views = λ v. refl;
          flushed = refl;
          result = inl (inl refl, ends free);
        })
      ]

    unchanged :
        (found : Found)
        → (Denied found × (climb space m.memory (i ∷ q) ≡ missing err_not_found))
          ⊎ (Reaches virt place found (i ∷ q) × (climb space m.memory (i ∷ q) ≡ found))
        → Down space virt owned m (found, m) (i ∷ q)
    unchanged found result = record {
      place = place;
      tree = tree;
      views = λ v. refl;
      flushed = refl;
      result = result;
    }

    alloc_Down :
        (callback : Option (W → ℕ × W))
        → Trusted callback virt owned
        → leads e ≡ false
        → Down space virt owned m (alloc_table space callback m (virt p) i) (i ∷ q)
    unfolding alloc_table
    alloc_Down none trusted free = unchanged (missing err_nomem) (inl (inl refl, ends free))
    alloc_Down (some alloc) trusted free = asked_Down alloc trusted free

    -- The branches of the step.
    step_huge :
        bit_and e pte_present ≢ 0
        → bit_and e pte_huge ≢ 0
        → get_or_alloc_next_table space m (virt p) i ≡ (missing err_exists, m)
    unfolding e get_or_alloc_next_table
    step_huge present huge = ground (arith, present, huge)

    step_absent :
        bit_and e pte_present ≡ 0
        → get_or_alloc_next_table space m (virt p) i
          ≡ alloc_table space space.alloc_frame m (virt p) i
    unfolding e get_or_alloc_next_table
    step_absent absent = ground (arith, absent)

    step_leads :
        leads e ≡ true
        → virt (bit_and e pte_addr_mask) ≢ 0
        → get_or_alloc_next_table space m (virt p) i ≡ (at (virt (bit_and e pte_addr_mask)), m)
    unfolding e get_or_alloc_next_table
    step_leads l mapped =
        rw (tree.virt_is, address_aligned (entry m.memory (virt p) i)) (ground (arith, l, mapped))

    pub get_or_alloc-Down :
        Trusted space.alloc_frame virt owned
        → Down space virt owned m (get_or_alloc_next_table space m (virt p) i) (i ∷ q)
    unfolding e
    get_or_alloc-Down trusted = elim (ℕ_discrete (bit_and e pte_present) 0) [
      | yes absent ↦
          rw (step_absent absent) (alloc_Down space.alloc_frame trusted (ground (arith, absent)))
      | no present ↦ elim (ℕ_discrete (bit_and e pte_huge) 0) [
        | no huge ↦
            rw (step_huge present huge)
              (unchanged (missing err_exists) (inl (inr refl, ends (ground (arith, huge)))))
        | yes small_page ↦
            let l : leads e ≡ true = ground (arith, present, small_page) in
            let below = tree.child p q i here short small l in
            let mapped = tree.mapped (bit_and e pte_addr_mask) (i ∷ q) below in
            rw (step_leads l mapped) (
              unchanged (at (virt (bit_and e pte_addr_mask))) (
                inr (
                  (bit_and e pte_addr_mask, refl, below),
                  ap (λ found. follow space m.memory found i) onway
                      ∙ follow-leads space virt tree.virt_is m.memory (virt p) i l mapped,
                )))
      ]
    ]
