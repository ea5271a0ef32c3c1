-- ===== src/Vfs/Tree.antt =====
-- mcsos/kernel/vfs/ramfs.c: paths, and the nodes of the tree in memory.
pub mod Inv
use safira_uraa.Base.{
  ℕ, zero, suc, ◌+◌, ◌-◌, Bool, true, false, not, ◌&&◌, ◌||◌, Option, none, some, List, [], ◌∷◌,
  get_or, set, drop, replicate, length, ltb, leb, ◌==◌, ◌!=◌, if◌then◌else◌, min,
}
use safira_uraa.Base.Words.{u64}
use safira_uraa.Vfs.{
  Status, enoent, enotdir, eisdir, einval, enospc, enametoolong, Result, fail, good, max_name,
  max_path, max_nodes, data_bytes, Kind, dir, file, is_dir, Vnode, Ramfs, no_node, node_at, head,
  tail, copy_bytes,
}

pub strlen : List ℕ → ℕ
strlen [] = 0
strlen (c ∷ s) = let rest = strlen s in if c == 0 then 0 else suc rest

-- `a[i] == b[i]` for `i < n`, and `b` ends there.
pub streq_n : List ℕ → List ℕ → ℕ → Bool
streq_n a b zero = head b == 0
streq_n a b (suc n) =
    let rest = streq_n (tail a) (tail b) n in if head a != head b then false else rest

pub copy_name : List ℕ → ℕ → List ℕ
copy_name src n = copy_bytes (replicate max_name 0) 0 src (min n (max_name - 1))

-- The loop over `nodes`, `rounds` of them from index `i` on.
pub find_from : Ramfs → ℕ → List ℕ → ℕ → ℕ → ℕ → Option ℕ
find_from fs parent name name_len zero i = none
find_from fs parent name name_len (suc rounds) i =
    let rest = find_from fs parent name name_len rounds (i + 1) in
    let node = node_at fs i in
    if (node.used != 0 && node.parent == parent) && streq_n name node.name name_len
    then some i
    else rest

pub find_child : Ramfs → ℕ → List ℕ → ℕ → Result ℕ
find_child fs parent name name_len =
    if name_len == 0 || leb max_name name_len
    then fail einval
    else elim (find_from fs parent name name_len fs.node_count 0) [
      | some i ↦ good i
      | none ↦ fail enoent
    ]

-- The length of the segment that a path begins with.
pub segment_length : List ℕ → ℕ
segment_length [] = 0
segment_length (c ∷ s) = let rest = segment_length s in if c == b'/' || c == 0 then 0 else suc rest

-- One round of the loops over the segments of a path: what the segment `seg` names below `cur`.
pub enter : Ramfs → ℕ → List ℕ → Result ℕ
enter fs cur seg = find_child fs (node_at fs cur).id seg (segment_length seg)

-- The loop of `mcs_split_parent_leaf`, with fuel: the parent's index, and the leaf and its length.
pub split_from : Ramfs → ℕ → ℕ → List ℕ → Result (ℕ × List ℕ × ℕ)
split_from fs zero cur seg = fail einval
split_from fs (suc fuel) cur seg =
    let seg_len = segment_length seg in
    let next = drop seg_len seg in
    if seg_len == 0 || leb max_name seg_len
    then fail einval
    else if head next == 0
    then good (cur, seg, seg_len)
    else elim (enter fs cur seg) [
      | fail rc ↦ fail rc
      | good child ↦
          let rest = split_from fs fuel child (tail next) in
          if not (is_dir (node_at fs child).kind) then fail enotdir else rest
    ]

pub split_parent_leaf : Ramfs → List ℕ → Result (ℕ × List ℕ × ℕ)
split_parent_leaf fs path =
    if head path != b'/'
    then fail einval
    else if head (tail path) == 0
    then fail einval
    else if leb max_path (strlen path)
    then fail enametoolong
    else split_from fs (length path) 0 (tail path)

abbrev pub new_node : Ramfs → ℕ → Kind → List ℕ → ℕ → ℕ → Vnode
new_node fs parent kind name name_len capacity = record {
  used = 1;
  id = fs.node_count;
  parent = parent;
  kind = kind;
  name = copy_name name name_len;
  size = 0;
  data_offset = if is_dir kind then 0 else fs.data_used;
  data_capacity = if is_dir kind then 0 else capacity;
}

pub alloc_node : Ramfs → ℕ → Kind → List ℕ → ℕ → ℕ → Result ℕ × Ramfs
alloc_node fs parent kind name name_len capacity =
    if name_len == 0 || leb max_name name_len
    then (fail einval, fs)
    else if leb max_nodes fs.node_count
    then (fail enospc, fs)
    else if not (is_dir kind) && ltb data_bytes (u64 (fs.data_used + capacity))
    then (fail enospc, fs)
    else (
      good fs.node_count,
      record fs {
        nodes = set fs.nodes fs.node_count (new_node fs parent kind name name_len capacity);
        node_count = fs.node_count + 1;
        data_used = if is_dir kind then fs.data_used else u64 (fs.data_used + capacity);
      },
    )

abbrev pub root : Vnode
root = record no_node { used = 1; kind = dir; name = b'/' ∷ replicate 31 0 }

-- The arrays are full length; the names that `mcs_ramfs_init` leaves behind their first character
-- are not read before `mcs_copy_name` writes them, and are zero here.
pub ramfs_init : Ramfs
ramfs_init = record {
  nodes = root ∷ replicate (max_nodes - 1) (record no_node { name = replicate max_name 0 });
  node_count = 1;
  bytes = replicate data_bytes 0;
  data_used = 0;
}

-- The loop of `mcs_ramfs_lookup`, with fuel.
pub lookup_from : Ramfs → ℕ → ℕ → List ℕ → Result ℕ
lookup_from fs zero cur seg = fail einval
lookup_from fs (suc fuel) cur seg =
    let seg_len = segment_length seg in
    let next = drop seg_len seg in
    if head seg == 0
    then fail einval
    else if seg_len == 0 || leb max_name seg_len
    then fail einval
    else elim (enter fs cur seg) [
      | fail rc ↦ fail rc
      | good child ↦
          let rest = lookup_from fs fuel child (tail next) in
          if head next == 0
          then good child
          else if not (is_dir (node_at fs child).kind)
          then fail enotdir
          else rest
    ]

pub ramfs_lookup : Ramfs → List ℕ → Result ℕ
ramfs_lookup fs path =
    if head path != b'/'
    then fail einval
    else if leb max_path (strlen path)
    then fail enametoolong
    else if head (tail path) == 0
    then good 0
    else lookup_from fs (length path) 0 (tail path)

-- What `mcs_ramfs_create_file` does when no node has the path.
pub create_missing : Ramfs → List ℕ → Result ℕ × Ramfs
create_missing fs path = elim (split_parent_leaf fs path) [
  | fail rc ↦ (fail rc, fs)
  | good (parent, leaf, leaf_len) ↦
      if not (is_dir (node_at fs parent).kind)
      then (fail enotdir, fs)
      else alloc_node fs (node_at fs parent).id file leaf leaf_len 256
]

pub create_file : Ramfs → List ℕ → Result ℕ × Ramfs
create_file fs path = elim (ramfs_lookup fs path) [
  | good existing ↦
      if is_dir (node_at fs existing).kind then (fail eisdir, fs) else (good existing, fs)
  | fail rc ↦ create_missing fs path
]

-- `len` is the length of `content`.
pub seed_file : Ramfs → List ℕ → List ℕ → Result {0} Unit × Ramfs
seed_file fs path content =
    let (made, after) = create_file fs path in
    elim made [
      | fail rc ↦ (fail rc, after)
      | good i ↦
          let node = node_at after i in
          if ltb node.data_capacity (length content) then (fail enospc, after) else (
            good tt,
            record after {
              nodes = set after.nodes i (record node { size = length content });
              bytes = copy_bytes after.bytes node.data_offset content (length content);
            },
          )
    ]
