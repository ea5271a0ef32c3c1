-- ===== src/Vfs/Tree/Inv.antt =====
-- The representation invariant of `mcs_ramfs_t`, which the operations of
-- mcsos/kernel/vfs/ramfs.c keep: every file has its own bytes.
use safira_uraa.Base.{
  ℕ, zero, suc, ◌+◌, ◌<◌, ◌≤◌, ◌≡◌, ◌≢◌, ◌⊎◌, inl, inr, refl, sym, ◌∙◌, true, not, List, set,
  length, arith, get_or-set_self, get_or-set_ne, if◌then◌else◌, ℕ_discrete, length-set, Bool-cases,
  length-replicate,
}
use mathlib.Core.Path.{subst}
use safira_uraa.Base.Words.{u64}
use safira_uraa.Vfs.{
  enotdir, eisdir, Result, fail, good, Vnode, Ramfs, Kind, file, is_dir, no_node, node_at,
}
use safira_uraa.Vfs.Tree.{
  new_node, alloc_node, ramfs_init, create_missing, create_file, split_parent_leaf, ramfs_lookup,
}

-- The bytes of a node, in use or not, are its own.
abbrev pub Separate : Vnode → Vnode → Type 0
Separate a b =
    (a.data_offset + a.data_capacity ≤ b.data_offset)
    ⊎ (b.data_offset + b.data_capacity ≤ a.data_offset)

-- A node in use at an index, with its bytes among the first `budget`.
abbrev pub PlacedAt : Vnode → ℕ → ℕ → Type 0
PlacedAt node i budget =
    (node.used ≡ 1)
    × (node.id ≡ i)
    × (node.size ≤ node.data_capacity)
    × (node.data_offset + node.data_capacity ≤ budget)

pub record IsValid (fs : Ramfs) : Type 0 where
  pub whole : length fs.nodes ≡ 64
  pub room : length fs.bytes ≡ 8192
  pub some_node : 1 ≤ fs.node_count
  pub few : fs.node_count ≤ 64
  pub budget : fs.data_used ≤ 8192
  pub placed : (i : ℕ) → i < fs.node_count → PlacedAt (node_at fs i) i fs.data_used
  pub apart :
      (i j : ℕ)
      → i < fs.node_count
      → j < fs.node_count
      → i ≢ j
      → Separate (node_at fs i) (node_at fs j)

pub ramfs_init-IsValid : IsValid ramfs_init
unfolding ramfs_init
ramfs_init-IsValid = record {
  whole = refl;
  room = length-replicate {A = ℕ} 8192 0;
  some_node = omega arith;
  few = omega arith;
  budget = omega arith;
  placed = λ i l. only i l;
  apart = λ i j l m ne. absurd (ne (omega arith));
}
  where
    only : (i : ℕ) → i < 1 → PlacedAt (node_at ramfs_init i) i 0
    only zero l = (refl, refl, omega arith, omega arith)
    only (suc i) l = absurd (omega arith)

swap : (a b : Vnode) → Separate a b → Separate b a
swap a b s = ground (arith, s)

-- A new node behind the others.
added : Ramfs → ℕ → Kind → List ℕ → ℕ → ℕ → Ramfs
added fs parent kind name name_len capacity = record fs {
  nodes = set fs.nodes fs.node_count (new_node fs parent kind name name_len capacity);
  node_count = fs.node_count + 1;
  data_used = if is_dir kind then fs.data_used else u64 (fs.data_used + capacity);
}

module _ (fs : Ramfs) (parent : ℕ) (kind : Kind) (name : List ℕ) (name_len capacity : ℕ)
    (v : IsValid fs) (small : capacity ≤ 8192) where
  new : Vnode
  new = new_node fs parent kind name name_len capacity

  next : Ramfs
  next = added fs parent kind name name_len capacity

  alloc_node-cases :
      ((alloc_node fs parent kind name name_len capacity).1 ≡ fs)
      ⊎ ((fs.node_count < 64)
          × (is_dir kind ≡ true ⊎ (fs.data_used + capacity ≤ 8192))
          × (alloc_node fs parent kind name name_len capacity ≡ (good fs.node_count, next)))
  unfolding alloc_node next added
  alloc_node-cases = ground (arith, v.budget)

  at_new : fs.node_count < 64 → node_at next fs.node_count ≡ new
  unfolding next added new
  at_new l = get_or-set_self fs.nodes fs.node_count _ no_node (omega (arith, v.whole))

  at_old : (i : ℕ) → i < fs.node_count → node_at next i ≡ node_at fs i
  unfolding next added
  at_old i l = get_or-set_ne fs.nodes fs.node_count i _ no_node (omega arith)

  module _ (l : fs.node_count < 64)
      (fits : (is_dir kind ≡ true) ⊎ (fs.data_used + capacity ≤ 8192)) where
    budgets : (fs.data_used ≤ next.data_used) × (next.data_used ≤ 8192)
    unfolding next added
    budgets = ground (arith, v.budget)

    new_placed : PlacedAt new fs.node_count next.data_used
    unfolding new next added
    new_placed = (refl, refl, omega arith, ground (arith, v.budget))

    new_apart : (i : ℕ) → i < fs.node_count → Separate (node_at fs i) new
    unfolding new
    new_apart i m = ground (arith, (v.placed i m).3)

    next_placed : (i : ℕ) → i < fs.node_count + 1 → PlacedAt (node_at next i) i next.data_used
    next_placed i m = elim (ℕ_discrete fs.node_count i) [
      | yes e ↦
          subst (λ k. PlacedAt (node_at next k) k next.data_used) e
            (subst (λ w. PlacedAt w fs.node_count next.data_used) (sym (at_new l)) new_placed)
      | no ne ↦
          let (live, id, size, inside) = v.placed i (omega arith) in
          subst (λ w. PlacedAt w i next.data_used) (sym (at_old i (omega arith)))
            (live, id, size, omega (arith, inside, budgets.0))
    ]

    next_apart :
        (i j : ℕ)
        → i < fs.node_count + 1
        → j < fs.node_count + 1
        → i ≢ j
        → Separate (node_at next i) (node_at next j)
    next_apart i j m n ne = elim (ℕ_discrete fs.node_count i) [
      | yes e ↦
          subst (λ k. Separate (node_at next k) (node_at next j)) e
            (rw (at_new l, at_old j (omega arith))
              (swap (node_at fs j) new (new_apart j (omega arith))))
      | no old ↦ elim (ℕ_discrete fs.node_count j) [
        | yes e ↦
            subst (λ k. Separate (node_at next i) (node_at next k)) e
              (rw (at_new l, at_old i (omega arith)) (new_apart i (omega arith)))
        | no other ↦
            rw (at_old i (omega arith), at_old j (omega arith))
              (v.apart i j (omega arith) (omega arith) ne)
      ]
    ]

    next-IsValid : IsValid next
    unfolding next added
    next-IsValid = record {
      whole = length-set fs.nodes fs.node_count _ ∙ v.whole;
      room = v.room;
      some_node = omega arith;
      few = omega arith;
      budget = budgets.1;
      placed = next_placed;
      apart = next_apart;
    }

  alloc_node-IsValid : IsValid (alloc_node fs parent kind name name_len capacity).1
  alloc_node-IsValid = elim alloc_node-cases [
    | inl same ↦ subst IsValid (sym same) v
    | inr (l, fits, made) ↦ subst (λ r. IsValid r.1) (sym made) (next-IsValid l fits)
  ]

create_missing-IsValid :
    (fs : Ramfs) (path : List ℕ) → IsValid fs → IsValid (create_missing fs path).1
unfolding create_missing
create_missing-IsValid fs path v = go (split_parent_leaf fs path)
  where
    made : Result (ℕ × List ℕ × ℕ) → Result ℕ × Ramfs
    made r = elim r [
      | fail rc ↦ (fail rc, fs)
      | good (parent, leaf, leaf_len) ↦
          if not (is_dir (node_at fs parent).kind)
          then (fail enotdir, fs)
          else alloc_node fs (node_at fs parent).id file leaf leaf_len 256
    ]

    go : (r : Result (ℕ × List ℕ × ℕ)) → IsValid (made r).1
    go (fail rc) = v
    go (good (parent, leaf, leaf_len)) = elim (Bool-cases (is_dir (node_at fs parent).kind)) [
      | inl d ↦
          rw d (alloc_node-IsValid fs (node_at fs parent).id file leaf leaf_len 256 v (omega arith))
      | inr f ↦ rw f v
    ]

-- On a valid file system, creating a file keeps the invariant, whatever the path: every file has
-- its own bytes.
pub create_file-IsValid :
    (fs : Ramfs) (path : List ℕ) → IsValid fs → IsValid (create_file fs path).1
unfolding create_file
create_file-IsValid fs path v = go (ramfs_lookup fs path)
  where
    made : Result ℕ → Result ℕ × Ramfs
    made r = elim r [
      | good existing ↦
          if is_dir (node_at fs existing).kind then (fail eisdir, fs) else (good existing, fs)
      | fail rc ↦ create_missing fs path
    ]

    go : (r : Result ℕ) → IsValid (made r).1
    go (fail rc) = create_missing-IsValid fs path v
    go (good i) = elim (Bool-cases (is_dir (node_at fs i).kind)) [ inl d ↦ rw d v | inr f ↦ rw f v ]
