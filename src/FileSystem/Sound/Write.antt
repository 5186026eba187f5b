-- ===== src/FileSystem/Sound/Write.antt =====
-- filesystem.cpp: FS_WRITEBLOCK and the invariant.
use os_from_scratch.Common.{
  ℕ, ◌+◌, ◌<◌, ◌≤◌, ◌≡◌, ◌≢◌, inl, inr, refl, sym, subst, ◌∙◌, true, List, [], ◌∷◌, some, get_elem?,
  get_or, set, Bytes, ◌==◌, ltb, leb, arith, Bool-cases, Option-cases, length-set, get_elem?_below,
  get_or-get_elem?,
}
use os_from_scratch.Params.{fs_maxfileblocks}
use os_from_scratch.Disk.{Device, Inode, IsInode, Store, used}
use os_from_scratch.Request.{FilePath}
use os_from_scratch.FileSystem.Traverse.{InodeInfo, read_inode, traverse_fs}
use os_from_scratch.FileSystem.Blocks.{append_block, write_file, write_block}
use os_from_scratch.FileSystem.Arrays.{get_elem?-take_if, get_elem?-set_if, used_grown}
use os_from_scratch.FileSystem.Lookup.{traverse_fs-holds_inode}
use os_from_scratch.FileSystem.Invariant.Allocate.{first_free}
use os_from_scratch.FileSystem.Invariant.Data.{data-Inv}
use os_from_scratch.FileSystem.Invariant.Grow.{grow-Inv}
use os_from_scratch.FileSystem.Invariant.{Role, content, holds_inode, Inv, assign, tables, IsSound}
use os_from_scratch.FileSystem.Sound.Reads.{
  read_inode-write_ne, read_direntries-write_ne, read_inode-write_self,
}

-- The inode of an appended file.
abbrev pub appended : Inode → ℕ → Inode
appended i b = record i { blocks = set i.blocks i.size b; size = i.size + 1 }

pub appended-IsInode : (i : Inode) (b : ℕ) → IsInode i → IsInode (appended i b)
appended-IsInode i b h = record {
  owner_length = h.owner_length;
  blocks_length = omega (arith, length-set i.blocks i.size b, h.blocks_length);
}

-- A position below the size holds a block.
pub block_at :
    (i : Inode) (k : ℕ)
    → IsInode i
    → i.size ≤ fs_maxfileblocks
    → k < i.size
    → get_elem? (used i) k ≡ some (get_or i.blocks k 0)
block_at i k h s l =
    let (b, e) = get_elem?_below i.blocks k (omega (arith, h.blocks_length)) in
    ground (arith, get_elem?-take_if i.size i.blocks k, get_or-get_elem? i.blocks k 0 e)

module _ (dev : Device) where
  open dev use {Block, Disk, disk_writeblock, disk_readblock, of_inode, inode_of-IsInode}

  -- A found inode is the one on the disk.
  pub at_disk :
      {d : Disk} (info : InodeInfo)
      → info.inode ≡ read_inode dev d info.block
      → record { inode = read_inode dev d info.block; block = info.block } ≡ info
  at_disk info h = λ j. record { inode = (sym h) j; block = info.block }

  module _ (s : Store Disk) (role : ℕ → Role) (inv : Inv (tables dev s) role) where
    overwrite-IsSound :
        (p k c : ℕ) (x : Block)
        → role c ≡ content p k
        → (read_inode dev s.disk p).type ≢ b'd'
        → IsSound dev (record s { disk = disk_writeblock s.disk c x })
    overwrite-IsSound p k c x r f = (
      role,
      data-Inv (tables dev s) (tables dev (record s { disk = disk_writeblock s.disk c x })) role inv
          refl (λ q h. read_inode-write_ne dev s.disk c q x (ground arith))
          (λ q i c' h d. read_direntries-write_ne dev s.disk c c' x (ground arith)),
    )

    append-IsSound :
        (p b : ℕ) (x : Block) (rest : List ℕ)
        → s.free ≡ b ∷ rest
        → holds_inode (role p) ≡ true
        → (read_inode dev s.disk p).type ≢ b'd'
        → (read_inode dev s.disk p).size < fs_maxfileblocks
        → IsSound dev (record {
          disk =
              disk_writeblock
                (disk_writeblock s.disk b x)
                p
                (of_inode (appended (read_inode dev s.disk p) b));
          free = rest;
        })
    append-IsSound p b x rest e h f l =
        let i : Inode = read_inode dev s.disk p in
        let d : Disk = disk_writeblock s.disk b x in
        let d' : Disk = disk_writeblock d p (of_inode (appended i b)) in
        let shape = inode_of-IsInode (disk_readblock s.disk p) in
        let fresh = first_free (tables dev s) role inv b rest e in
        let written : read_inode dev d' p ≡ appended i b =
          read_inode-write_self dev d p (appended i b) (inv.in_range p (λ z. ground arith))
            (appended-IsInode i b shape) in
        (
          assign role b (content p i.size),
          grow-Inv (tables dev s) (tables dev (record { disk = d'; free = rest })) role inv b p h l
              e (λ k. rw written (used_grown i b k (omega (arith, shape.blocks_length))))
              (rw written) (rw written)
              (λ q z n.
                read_inode-write_ne dev d p q _ (λ y. n (ground arith))
                ∙ read_inode-write_ne dev s.disk b q x (ground arith))
              (λ q k c z.
                read_direntries-write_ne dev d p c _ (ground arith)
                ∙ read_direntries-write_ne dev s.disk b c x (ground arith))
              (λ z. absurd (f z)),
        )

    append_block-IsSound :
        (p k : ℕ) (x : Block) (rest : List ℕ)
        → s.free ≡ rest
        → holds_inode (role p) ≡ true
        → (read_inode dev s.disk p).type ≢ b'd'
        → k < fs_maxfileblocks
        → k ≡ (read_inode dev s.disk p).size
        → IsSound dev
            (append_block dev s (record { inode = read_inode dev s.disk p; block = p }) k x rest).0
    unfolding append_block
    append_block-IsSound p k x [] e h f l m = (role, inv)
    append_block-IsSound p k x (b ∷ rest) e h f l m =
        let i : Inode = read_inode dev s.disk p in
        let shape = inode_of-IsInode (disk_readblock s.disk p) in
        let last : get_or (appended i b).blocks k 0 ≡ b =
          get_or-get_elem? (appended i b).blocks k 0
            (ground (arith, get_elem?-set_if i.blocks i.size k b, shape.blocks_length)) in
        rw last (append-IsSound p b x rest e h f (omega (arith)))

    write_file-IsSound :
        (p k : ℕ) (x : Block)
        → holds_inode (role p) ≡ true
        → k < fs_maxfileblocks
        → IsSound dev
            (write_file dev s (record { inode = read_inode dev s.disk p; block = p }) k x).0
    unfolding write_file
    write_file-IsSound p k x h l = elim (Bool-cases ((read_inode dev s.disk p).type == b'd')) [
      | inl d ↦ rw d (role, inv)
      | inr f ↦ rw f (elim (Bool-cases (ltb k (read_inode dev s.disk p).size)) [
        | inl inside ↦ rw inside (
            overwrite-IsSound p k _ x
              (inv.content_from p k _ h (
                block_at (read_inode dev s.disk p) k (inode_of-IsInode (disk_readblock s.disk p))
                  (inv.size_of p h) (ground arith)))
              (ground arith))
        | inr outside ↦ rw outside (elim (Bool-cases (k == (read_inode dev s.disk p).size)) [
          | inl end ↦
              rw end (append_block-IsSound p k x s.free refl h (ground arith) l (ground arith))
          | inr beyond ↦ rw beyond (role, inv)
        ])
      ])
    ]

    pub write_block-IsSound :
        (username : Bytes) (path : FilePath) (k : ℕ) (x : Block)
        → IsSound dev (write_block dev s username path k x).0
    unfolding write_block
    write_block-IsSound username [] k x = (role, inv)
    write_block-IsSound username (name ∷ path) k x = elim (Bool-cases (leb fs_maxfileblocks k)) [
      | inl big ↦ rw big (role, inv)
      | inr small ↦ rw small (elim (Option-cases (traverse_fs dev s.disk (name ∷ path) username)) [
        | inl e ↦ rw e (role, inv)
        | inr (info, e) ↦
            let (h, same, _) = traverse_fs-holds_inode dev s role inv (name ∷ path) username e in
            rw e (
              subst (λ y. IsSound dev (write_file dev s y k x).0) (at_disk info same)
                (write_file-IsSound info.block k x h (ground arith)))
      ])
    ]
