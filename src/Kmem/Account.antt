-- ===== src/Kmem/Account.antt =====
-- `kmem_get_stats` of kernel/mm/kmem.c: the loop ends, and its sums account for the heap.
use safira_uraa.Base.{
  ℕ, zero, suc, ◌+◌, ◌-◌, ◌*◌, ◌^◌, ◌<◌, ◌≤◌, ◌≡◌, ◌≢◌, refl, ◌∙◌, Bool, true, false, not, Option,
  none, some, [], ◌∷◌, length, arith, ltb, ◌==◌, if◌then◌else◌,
}
use Prim.Native.Nat.{max}
use mathlib.Core.Path.{subst}
use safira_uraa.Base.Words.{u64}
use safira_uraa.Kmem.{Block, Blocks, Heap}
use safira_uraa.Kmem.Chain.{Layout, Chain, HasLayout, Chain-limit}

-- `kmem_stats_t`
pub record Stats : Type 0 where
  pub total_bytes : ℕ
  pub used_bytes : ℕ
  pub free_bytes : ℕ
  pub block_count : ℕ
  pub free_count : ℕ
  pub largest_free : ℕ

abbrev pub no_stats : Stats
no_stats = record {
  total_bytes = 0;
  used_bytes = 0;
  free_bytes = 0;
  block_count = 0;
  free_count = 0;
  largest_free = 0;
}

abbrev pub count_block : Stats → Block → Stats
count_block out b =
    if b.free
    then record out {
      block_count = u64 (out.block_count + 1);
      free_count = u64 (out.free_count + 1);
      free_bytes = u64 (out.free_bytes + b.size);
      largest_free = if ltb out.largest_free b.size then b.size else out.largest_free;
    }
    else record out {
      block_count = u64 (out.block_count + 1);
      used_bytes = u64 (out.used_bytes + b.size);
    }

-- The loop of `kmem_get_stats`, with fuel; none where the fuel runs out.
pub stats_from : ℕ → Blocks → ℕ → Stats → Option Stats
stats_from zero blocks cur out = none
stats_from (suc fuel) blocks cur out =
    let rest = stats_from fuel blocks (blocks cur).next (count_block out (blocks cur)) in
    if cur == 0 then some out else rest

pub kmem_get_stats : ℕ → Heap → Option Stats
kmem_get_stats fuel h =
    if not h.initialized
    then some no_stats
    else stats_from fuel h.blocks h.head (record no_stats { total_bytes = h.limit - h.base })

-- The bytes in use, the free bytes, the number of the free blocks, and the largest of them.
abbrev pub used_sum : Layout → ℕ
used_sum [] = 0
used_sum ((size, true) ∷ q) = used_sum q
used_sum ((size, false) ∷ q) = size + used_sum q

abbrev pub free_sum : Layout → ℕ
free_sum [] = 0
free_sum ((size, true) ∷ q) = size + free_sum q
free_sum ((size, false) ∷ q) = free_sum q

abbrev pub free_number : Layout → ℕ
free_number [] = 0
free_number ((size, true) ∷ q) = 1 + free_number q
free_number ((size, false) ∷ q) = free_number q

abbrev pub largest : Layout → ℕ
largest [] = 0
largest ((size, true) ∷ q) = max size (largest q)
largest ((size, false) ∷ q) = largest q

-- What the blocks that were counted take.
abbrev covered : Stats → ℕ
covered out = out.used_bytes + out.free_bytes + 48 * out.block_count

-- The statistics `r` are those of `out` and of a layout behind it.
abbrev Adds : Stats → Layout → Stats → Type 0
Adds out q r =
    (r.total_bytes ≡ out.total_bytes)
    × (r.used_bytes ≡ out.used_bytes + used_sum q)
    × (r.free_bytes ≡ out.free_bytes + free_sum q)
    × (r.block_count ≡ out.block_count + length q)
    × (r.free_count ≡ out.free_count + free_number q)
    × (r.largest_free ≡ max out.largest_free (largest q))

module _ (out : Stats) (b : Block) (small : covered out + 48 + b.size < 2 ^ 64)
    (frees : out.free_count ≤ out.block_count) where
  count_free : b.free ≡ true → Adds out ((b.size, true) ∷ []) (count_block out b)
  count_free f = rw f (refl, omega arith, omega arith, omega arith, omega arith, ground arith)

  count_used : b.free ≡ false → Adds out ((b.size, false) ∷ []) (count_block out b)
  count_used f = rw f (refl, omega arith, omega arith, omega arith, omega arith, omega arith)

  counts : (free : Bool) → b.free ≡ free → Adds out ((b.size, free) ∷ []) (count_block out b)
  counts true f = count_free f
  counts false f = count_used f

-- A block and the layout behind it.
Adds-join :
    (size : ℕ) (free : Bool) (q : Layout) (out between r : Stats)
    → Adds out ((size, free) ∷ []) between
    → Adds between q r
    → Adds out ((size, free) ∷ q) r
Adds-join size true q out between r a b = (
  b.0 ∙ a.0,
  omega (arith, a, b),
  omega (arith, a, b),
  omega (arith, a, b),
  omega (arith, a, b),
  omega (arith, a, b),
)
Adds-join size false q out between r a b = (
  b.0 ∙ a.0,
  omega (arith, a, b),
  omega (arith, a, b),
  omega (arith, a, b),
  omega (arith, a, b),
  omega (arith, a, b),
)

-- What one block adds to what is covered.
covers :
    (size : ℕ) (free : Bool) (out r : Stats)
    → Adds out ((size, free) ∷ []) r
    → (covered r ≡ covered out + 48 + size)
      × (out.free_count ≤ out.block_count → r.free_count ≤ r.block_count)
covers size true out r a = (omega (arith, a), λ few. omega (arith, a, few))
covers size false out r a = (omega (arith, a), λ few. omega (arith, a, few))

stats-Chain :
    (q : Layout) (blocks : Blocks) (limit fuel at prev link : ℕ) (out : Stats)
    → Chain blocks limit at prev link q
    → at ≢ 0
    → length q < fuel
    → covered out + (limit - at) < 2 ^ 64
    → out.free_count ≤ out.block_count
    → (r : Stats) × (stats_from fuel blocks link out ≡ some r) × Adds out q r
unfolding stats_from
stats-Chain [] blocks limit zero at prev link out c placed enough small frees =
    absurd (omega (arith, enough))
stats-Chain [] blocks limit (suc fuel) at prev link out (null, end) placed enough small frees =
    (out, rw null refl, (refl, omega arith, omega arith, omega arith, omega arith, omega arith))
stats-Chain ((size, free) ∷ q) blocks limit zero at prev link out c placed enough small frees =
    absurd (omega (arith, enough))
stats-Chain ((size, free) ∷ q) blocks limit (suc fuel) at prev link out (e, _, s, f, _, _, c) placed
      enough small frees =
    let fits = Chain-limit q blocks limit (at + 48 + size) at (blocks at).next c in
    let one : Adds out ((size, free) ∷ []) (count_block out (blocks at)) =
      subst (λ n. Adds out ((n, free) ∷ []) (count_block out (blocks at))) s
        (counts out (blocks at) (omega (arith, s, fits, small)) frees free f) in
    let (sum, few) = covers size free out (count_block out (blocks at)) one in
    let (r, is, rest) =
      stats-Chain q blocks limit fuel (at + 48 + size) at (blocks at).next
        (count_block out (blocks at)) c (λ null. absurd (omega (arith, null)))
        (omega (arith, enough)) (omega (arith, sum, fits, small)) (few frees) in
    (
      r,
      rw e (ground (arith, placed, is)),
      Adds-join size free q out (count_block out (blocks at)) r one rest,
    )

-- The blocks of a chain take what lies between its ends.
Chain-covers :
    (q : Layout) (blocks : Blocks) (limit at prev link : ℕ)
    → Chain blocks limit at prev link q
    → used_sum q + free_sum q + 48 * length q ≡ limit - at
Chain-covers [] blocks limit at prev link c = omega (arith, c.1)
Chain-covers ((size, true) ∷ q) blocks limit at prev link (_, _, _, _, _, _, c) = omega (
  arith,
  Chain-covers q blocks limit (at + 48 + size) at (blocks at).next c,
  Chain-limit q blocks limit (at + 48 + size) at (blocks at).next c,
)
Chain-covers ((size, false) ∷ q) blocks limit at prev link (_, _, _, _, _, _, c) = omega (
  arith,
  Chain-covers q blocks limit (at + 48 + size) at (blocks at).next c,
  Chain-limit q blocks limit (at + 48 + size) at (blocks at).next c,
)

-- On a heap whose blocks tile it, and with as much fuel as blocks and one more: the statistics
-- give the size of the heap, the bytes in use, the free bytes, the number of blocks, the number
-- of free blocks and the size of the largest free block, each as the list of blocks has it, and
-- the bytes in use, the free bytes and the headers of the blocks add up to the whole heap.
pub kmem_get_stats_lem :
    (h : Heap) (q : Layout)
    → HasLayout h q
    → (fuel : ℕ) → length q < fuel
    → (out : Stats) × (kmem_get_stats fuel h ≡ some out)
      × (out.total_bytes ≡ h.limit - h.base)
      × (out.used_bytes ≡ used_sum q)
      × (out.free_bytes ≡ free_sum q)
      × (out.block_count ≡ length q)
      × (out.free_count ≡ free_number q)
      × (out.largest_free ≡ largest q)
      × (out.used_bytes + out.free_bytes + 48 * out.block_count ≡ out.total_bytes)
unfolding kmem_get_stats
kmem_get_stats_lem h q l fuel enough =
    let (r, is, (total, used, free, count, frees, large)) =
      stats-Chain q h.blocks h.limit fuel h.base 0 h.head
        (record no_stats { total_bytes = h.limit - h.base }) l.chain l.based enough
        (omega (arith, l.bounded)) (omega arith) in
    let covered_all = Chain-covers q h.blocks h.limit h.base 0 h.head l.chain in
    (
      r,
      rw l.live is,
      total,
      omega (arith, used),
      omega (arith, free),
      omega (arith, count),
      omega (arith, frees),
      large ∙ omega arith,
      omega (arith, total, used, free, count, covered_all),
    )
