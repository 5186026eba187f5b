-- ===== src/FileSystem/Isolation/Write.antt =====
-- filesystem.cpp: FS_WRITEBLOCK and what belongs to another user.
use os_from_scratch.Common.{
  ℕ, ◌<◌, ◌≡◌, inl, inr, refl, sym, subst, ◌∙◌, true, List, [], ◌∷◌, Bytes, ◌==◌, ltb, leb, arith,
  Bool-cases, Option-cases, get_or-get_elem?, set,
}
use os_from_scratch.Params.{fs_maxfileblocks}
use os_from_scratch.Disk.{Device, Inode, Store}
use os_from_scratch.Request.{FilePath}
use os_from_scratch.FileSystem.Traverse.{read_inode, traverse_fs}
use os_from_scratch.FileSystem.Blocks.{append_block, write_file, write_block}
use os_from_scratch.FileSystem.Arrays.{get_elem?-set_if}
use os_from_scratch.FileSystem.Lookup.{traverse_fs-holds_inode}
use os_from_scratch.FileSystem.Sound.Write.{block_at, at_disk}
use os_from_scratch.FileSystem.Invariant.Allocate.{first_free}
use os_from_scratch.FileSystem.Invariant.{Role, holds_inode, Inv, tables}
use os_from_scratch.FileSystem.Isolation.Own.{
  IsForeign, IsOwn, Untouched, free_ne, own_ne, content_ne, IsOwn-of,
}

module _ (dev : Device) where
  open dev use {
    Block, Disk, disk_readblock, disk_writeblock, read-write_ne, inode_of-IsInode, of_inode,
    of_direntries,
  }

  module _ (s : Store Disk) (role : ℕ → Role) (inv : Inv (tables dev s) role) (username : Bytes)
      (q c : ℕ) (foreign : IsForeign dev s role username q c) where
    abbrev IsOwn' : ℕ → Type 0
    IsOwn' = IsOwn dev s role inv username q c foreign

    abbrev Same : Store Disk → Type 0
    Same = Untouched dev s role inv username q c foreign

    append_block_untouched :
        (p k : ℕ) (x : Block) (rest : List ℕ)
        → s.free ≡ rest
        → holds_inode (role p) ≡ true
        → IsOwn' p
        → k < fs_maxfileblocks
        → k ≡ (read_inode dev s.disk p).size
        → Same
            (append_block dev s (record { inode = read_inode dev s.disk p; block = p }) k x rest).0
    unfolding append_block
    append_block_untouched p k x [] e h o l m = refl
    append_block_untouched p k x (b ∷ rest) e h o l m =
        let fresh = first_free (tables dev s) role inv b rest e in
        let shape = inode_of-IsInode (disk_readblock s.disk p) in
        let i : Inode = read_inode dev s.disk p in
        read-write_ne _ p c _ (own_ne dev s role inv username q c foreign p h o)
        ∙ read-write_ne s.disk _ c x (λ z. free_ne dev s role inv username q c foreign b fresh.0 (
            sym (
              get_or-get_elem? (set i.blocks i.size b) k 0
                (ground (arith, get_elem?-set_if i.blocks i.size k b, shape.blocks_length)))
            ∙ z))

    write_file_untouched :
        (p k : ℕ) (x : Block)
        → holds_inode (role p) ≡ true
        → IsOwn' p
        → k < fs_maxfileblocks
        → Same (write_file dev s (record { inode = read_inode dev s.disk p; block = p }) k x).0
    unfolding write_file
    write_file_untouched p k x h o l = elim (Bool-cases ((read_inode dev s.disk p).type == b'd')) [
      | inl d ↦ rw d
      | inr f ↦ rw f (elim (Bool-cases (ltb k (read_inode dev s.disk p).size)) [
        | inl inside ↦ rw inside (
            read-write_ne s.disk _ c x (
              content_ne dev s role inv username q c foreign p k _ o (
                inv.content_from p k _ h (
                  block_at (read_inode dev s.disk p) k (inode_of-IsInode (disk_readblock s.disk p))
                    (inv.size_of p h) (ground arith)))))
        | inr outside ↦ rw outside (elim (Bool-cases (k == (read_inode dev s.disk p).size)) [
          | inl end ↦ rw end (append_block_untouched p k x s.free refl h o l (ground arith))
          | inr beyond ↦ rw beyond
        ])
      ])
    ]

    pub write_block_untouched :
        (path : FilePath) (k : ℕ) (x : Block) → Same (write_block dev s username path k x).0
    unfolding write_block
    write_block_untouched [] k x = refl
    write_block_untouched (name ∷ path) k x = elim (Bool-cases (leb fs_maxfileblocks k)) [
      | inl big ↦ rw big
      | inr small ↦ rw small (elim (Option-cases (traverse_fs dev s.disk (name ∷ path) username)) [
        | inl e ↦ rw e
        | inr (info, e) ↦
            let (h, same, _) = traverse_fs-holds_inode dev s role inv (name ∷ path) username e in
            rw e (
              subst (λ y. Same (write_file dev s y k x).0) (at_disk dev info same)
                (write_file_untouched info.block k x h
                  (IsOwn-of dev s role inv username q c foreign (name ∷ path) e) (ground arith)))
      ])
    ]
