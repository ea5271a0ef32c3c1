-- ===== src/Vfs/Transfer/Io.antt =====
-- Reads and writes of mcsos/kernel/vfs/fd.c: what is written is read back, and nothing else of the
-- file system changes.
use safira_uraa.Base.{
  ℕ, ◌+◌, ◌-◌, ◌^◌, ◌<◌, ◌≤◌, ◌≡◌, ◌≢◌, ◌⊎◌, inl, inr, refl, ap, ◌∙◌, true, false, some, List,
  get_or, set, take, drop, length, arith, get_or-set_self, get_or-set_ne, dec_lt, ltb,
  if◌then◌else◌, min, Bool-cases,
}
use safira_uraa.Base.Words.{u64}
use safira_uraa.Vfs.{good, File, Vnode, Ramfs, file, no_node, node_at, copy_bytes}
use safira_uraa.Vfs.Copy.{
  copy_bytes-inside, copy_bytes-outside, length-copy_bytes, take-all, take-drop_cong,
}
use safira_uraa.Vfs.Fd.{can_read, can_write, has, o_append}
use safira_uraa.Vfs.Transfer.{read_file, write_file}

-- The bytes of the node `i` lie in the array.
abbrev pub Placed : Ramfs → ℕ → Type 0
Placed fs i =
    (i < length fs.nodes)
    × ((node_at fs i).kind ≡ file)
    × ((node_at fs i).size ≤ (node_at fs i).data_capacity)
    × ((node_at fs i).data_offset + (node_at fs i).data_capacity ≤ length fs.bytes)
    × (length fs.bytes < 2 ^ 64)

-- Where a write of the file begins.
abbrev pub start : Ramfs → File → ℕ → ℕ
start fs f i = if has f.flags o_append then (node_at fs i).size else f.offset

-- The file and the file system after a write that is accepted.
abbrev pub wrote : Ramfs → File → ℕ → List ℕ → File × Ramfs
wrote fs f i content =
    let node = node_at fs i in
    let stop : ℕ = start fs f i + length content in
    (
      record f { offset = stop },
      record fs {
        nodes =
            set fs.nodes i (record node { size = if ltb node.size stop then stop else node.size });
        bytes = copy_bytes fs.bytes (node.data_offset + start fs f i) content (length content);
      },
    )

module _ (fs : Ramfs) (f : File) (i : ℕ) (content : List ℕ) (opened : f.node ≡ some i)
    (placed : Placed fs i) (writable : can_write f.flags ≡ true) where
  write_file-fits :
      start fs f i + length content ≤ (node_at fs i).data_capacity
      → write_file fs f content
        ≡ (good (length content), (wrote fs f i content).0, (wrote fs f i content).1)
  unfolding write_file
  write_file-fits fits =
      let (_, plain, _, inside, words) = placed in
      let all : min (length content) ((node_at fs i).data_capacity - start fs f i)
          ≡ length content =
        omega arith in
      let exact : u64 (start fs f i + length content) ≡ start fs f i + length content =
        omega arith in
      ground (arith, opened, writable, plain, all, exact, fits)

  -- The file system stays when a write is refused.
  write_file-refused :
      (node_at fs i).data_capacity < start fs f i + length content
      → (write_file fs f content).2 ≡ fs
  unfolding write_file
  write_file-refused wide =
      let (_, plain, _, inside, words) = placed in ground (arith, opened, writable, plain, wide)

  -- The node after an accepted write.
  grown : Vnode
  grown = record (node_at fs i) {
    size =
        if ltb (node_at fs i).size (start fs f i + length content)
        then start fs f i + length content
        else (node_at fs i).size;
  }

  node_at-wrote : node_at (wrote fs f i content).1 i ≡ grown
  unfolding grown
  node_at-wrote = get_or-set_self fs.nodes i _ no_node placed.0

  -- The bytes after an accepted write.
  bytes-wrote :
      start fs f i + length content ≤ (node_at fs i).data_capacity
      → take
          (length content)
          (drop ((node_at fs i).data_offset + start fs f i) (wrote fs f i content).1.bytes)
        ≡ content
  bytes-wrote fits =
      copy_bytes-inside fs.bytes ((node_at fs i).data_offset + start fs f i) content
        (length content) (omega (arith, placed.3, fits)) (omega arith)
      ∙ take-all content

write_file-barred :
    (fs : Ramfs) (f : File) (content : List ℕ)
    → can_write f.flags ≡ false
    → (write_file fs f content).2 ≡ fs
unfolding write_file
write_file-barred fs f content barred = rw barred refl

read_file-some :
    (fs : Ramfs) (f : File) (i n : ℕ) (v : Vnode)
    → f.node ≡ some i
    → node_at fs i ≡ v
    → can_read f.flags ≡ true
    → v.kind ≡ file
    → 0 < n
    → f.offset + n ≤ v.size
    → v.size < 2 ^ 64
    → read_file fs f n
      ≡ good (take n (drop (v.data_offset + f.offset) fs.bytes), record f { offset = f.offset + n })
unfolding read_file
read_file-some fs f i n v opened at readable plain some_bytes inside words =
    let all : min n (v.size - f.offset) ≡ n = omega arith in
    let exact : u64 (f.offset + n) ≡ f.offset + n = omega arith in
    rw (readable, opened, at) (ground (arith, plain, all, exact))

-- A write of some bytes that fits a file open to read and write, whose bytes lie in the array,
-- succeeds, and a read from where it began gives the bytes back and ends where the write ended.
pub read_file-write_file :
    (fs : Ramfs) (f : File) (i : ℕ) (content : List ℕ)
    → f.node ≡ some i
    → Placed fs i
    → can_write f.flags ≡ true
    → can_read f.flags ≡ true
    → 0 < length content
    → start fs f i + length content ≤ (node_at fs i).data_capacity
    → let (count, g, after) = write_file fs f content in
      (count ≡ good (length content))
      × (read_file after (record g { offset = start fs f i }) (length content) ≡ good (content, g))
unfolding grown
read_file-write_file fs f i content opened placed writable readable some_bytes fits =
    let back =
      read_file-some (wrote fs f i content).1 (record f { offset = start fs f i }) i
        (length content) (grown fs f i content opened placed writable) opened
        (node_at-wrote fs f i content opened placed writable) readable placed.1 some_bytes
        (ground arith) (ground (arith, placed, fits))
      ∙ ap (λ b. good (b, (wrote fs f i content).0))
          (bytes-wrote fs f i content opened placed writable fits) in
    rw (write_file-fits fs f i content opened placed writable fits) (refl, back)

-- The bytes of two nodes do not overlap.
abbrev pub Apart : Ramfs → ℕ → ℕ → Type 0
Apart fs i j =
    ((node_at fs i).data_offset + (node_at fs i).data_capacity ≤ (node_at fs j).data_offset)
    ⊎ ((node_at fs j).data_offset + (node_at fs j).data_capacity ≤ (node_at fs i).data_offset)

-- What a read gives depends on its node and its bytes only.
read_file-cong :
    (fs after : Ramfs) (g : File) (j n : ℕ)
    → g.node ≡ some j
    → Placed fs j
    → node_at after j ≡ node_at fs j
    → length after.bytes ≡ length fs.bytes
    → ((k : ℕ)
        → (node_at fs j).data_offset ≤ k
        → k < (node_at fs j).data_offset + (node_at fs j).data_capacity
        → get_or after.bytes k 0 ≡ get_or fs.bytes k 0)
    → read_file after g n ≡ read_file fs g n
unfolding read_file
read_file-cong fs after g j n opened placed at size same =
    elim (dec_lt g.offset (node_at fs j).size) [
      | yes inside ↦
          let m : ℕ = min n ((node_at fs j).size - g.offset) in
          let bytes : take m (drop ((node_at fs j).data_offset + g.offset) after.bytes)
              ≡ take m (drop ((node_at fs j).data_offset + g.offset) fs.bytes) =
            take-drop_cong after.bytes fs.bytes ((node_at fs j).data_offset + g.offset) m
              (omega (arith, size, placed.2, placed.3)) size
              (λ k p q. same k (omega arith) (omega (arith, placed.2))) in
          rw (opened, at, bytes) refl
      | no beyond ↦ rw (opened, at) (ground (arith, beyond))
    ]

-- A write to one file, accepted or not, changes nothing that a read of another file gives, for
-- two files whose bytes lie in the array and apart.
pub write_file-isolates :
    (fs : Ramfs) (f g : File) (i j : ℕ) (content : List ℕ) (n : ℕ)
    → f.node ≡ some i
    → g.node ≡ some j
    → Placed fs i
    → Placed fs j
    → i ≢ j
    → Apart fs i j
    → read_file (write_file fs f content).2 g n ≡ read_file fs g n
write_file-isolates fs f g i j content n opened other placed placed_other ne apart =
    elim (Bool-cases (can_write f.flags)) [
      | inr barred ↦ ap (λ after. read_file after g n) (write_file-barred fs f content barred)
      | inl writable ↦ elim (dec_lt (node_at fs i).data_capacity (start fs f i + length content)) [
        | yes wide ↦
            ap (λ after. read_file after g n)
              (write_file-refused fs f i content opened placed writable wide)
        | no fits ↦ rw (write_file-fits fs f i content opened placed writable (omega arith)) (
            read_file-cong fs (wrote fs f i content).1 g j n other placed_other
              (get_or-set_ne fs.nodes i j _ no_node ne)
              (length-copy_bytes fs.bytes _ content (length content))
              (λ k p q.
                copy_bytes-outside fs.bytes ((node_at fs i).data_offset + start fs f i) content
                  (length content) k (ground (arith, apart, fits))))
      ]
    ]
