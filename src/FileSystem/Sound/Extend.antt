-- ===== src/FileSystem/Sound/Extend.antt =====
-- FS_CREATE in a directory with no opening: a block of direntries and an inode are allocated.
use mathlib.Core.List.{Mem, mem-cons_self, mem-cons_of_mem}
use mathlib.Core.List.Perm
use os_from_scratch.Common.{
  ℕ, ◌<◌, ◌≤◌, ◌≡◌, inl, inr, refl, sym, ap, subst, ◌∙◌, true, List, [], ◌∷◌, length, Bytes, ◌==◌,
  if◌then◌else◌, arith, Bool-cases, ==_ne,
}
use os_from_scratch.Params.{fs_maxfileblocks, fs_maxfilename, fs_disksize}
use os_from_scratch.Disk.{Device, Direntry, Inode, IsInode, Store}
use os_from_scratch.FileSystem.Traverse.{read_inode, read_direntries}
use os_from_scratch.FileSystem.Create.{fill_entry, new_direntries, extend_dir}
use os_from_scratch.FileSystem.Arrays.{
  used_grown, target_at-fill_entry, target_at-new_direntries, fill_entry-IsDirentries,
  new_direntries-IsDirentries,
}
use os_from_scratch.FileSystem.Invariant.Allocate.{first_free}
use os_from_scratch.FileSystem.Invariant.Grow.{grow-Inv}
use os_from_scratch.FileSystem.Invariant.Link.{link-Inv}
use os_from_scratch.FileSystem.Invariant.Reorder.{reorder-Inv}
use os_from_scratch.FileSystem.Invariant.{
  Role, inode_at, content, holds_inode, Tables, Inv, assign, tables, IsSound,
}
use os_from_scratch.FileSystem.Sound.Reads.{
  read_inode-write_ne, read_direntries-write_ne, read_inode-write_self, read_direntries-write_self,
}
use os_from_scratch.FileSystem.Sound.Write.{appended, appended-IsInode}
use os_from_scratch.FileSystem.Sound.New.{IsNew, used_empty}

-- The tables between the two steps: the directory has the block `m`, all of it unused.
abbrev between : Tables → ℕ → ℕ → List ℕ → Tables
between t p m unused = record {
  inode = λ q. if q == p then appended (t.inode p) m else t.inode q;
  entries = λ c. if c == m then new_direntries else t.entries c;
  unused = unused;
}

between-Inv :
    (t : Tables) (role : ℕ → Role) (p b m : ℕ) (rest : List ℕ)
    → Inv t role
    → t.unused ≡ b ∷ m ∷ rest
    → holds_inode (role p) ≡ true
    → (t.inode p).size < fs_maxfileblocks
    → IsInode (t.inode p)
    → Inv (between t p m (b ∷ rest)) (assign role m (content p (t.inode p).size))
between-Inv t role p b m rest inv e h l shape =
    let t' : Tables = record t { unused = m ∷ b ∷ rest } in
    let inv' : Inv t' role = reorder-Inv t role (m ∷ b ∷ rest) (rw e (Perm.swap m b rest)) inv in
    let fresh = first_free t' role inv' m (b ∷ rest) refl in
    grow-Inv t' (between t p m (b ∷ rest)) role inv' m p h l refl
      (λ k. ground (arith, used_grown (t.inode p) m k, shape.blocks_length)) (ground arith)
      (ground arith) (λ q z n. ground arith) (λ q i c z. ground arith)
      (λ _ j. ground (arith, target_at-new_direntries j))

module _ (dev : Device) where
  open dev use {Disk, disk_readblock, disk_writeblock, of_inode, of_direntries, inode_of-IsInode}

  module _ (s : Store Disk) (role : ℕ → Role) (inv : Inv (tables dev s) role) (new : Inode)
      (is_new : IsNew new) (name : Bytes) (short : length name ≤ fs_maxfilename) where
    extend-IsSound :
        (p b m : ℕ) (rest : List ℕ)
        → s.free ≡ b ∷ m ∷ rest
        → holds_inode (role p) ≡ true
        → (read_inode dev s.disk p).type ≡ b'd'
        → (read_inode dev s.disk p).size < fs_maxfileblocks
        → IsSound dev (record {
          disk =
              disk_writeblock
                (disk_writeblock
                  (disk_writeblock s.disk m (of_direntries (fill_entry new_direntries 0 b name)))
                  b
                  (of_inode new))
                p
                (of_inode (appended (read_inode dev s.disk p) m));
          free = rest;
        })
    extend-IsSound p b m rest e h d l =
        let t : Tables = tables dev s in
        let i : Inode = read_inode dev s.disk p in
        let es : List Direntry = fill_entry new_direntries 0 b name in
        let shape : IsInode i = inode_of-IsInode (disk_readblock s.disk p) in
        let v : Tables = between t p m (b ∷ rest) in
        let role' : ℕ → Role = assign role m (content p i.size) in
        let inv' : Inv v role' = between-Inv t role p b m rest inv e h l shape in
        let fresh_b = first_free v role' inv' b rest refl in
        let fresh_b' = first_free t role inv b (m ∷ rest) e in
        let fresh_m = inv.unused_from m (subst (Mem m) (sym e) (mem-cons_of_mem b mem-cons_self)) in
        let m_range : m < fs_disksize = inv'.in_range m (λ z. ground arith) in
        let p_range : p < fs_disksize = inv.in_range p (λ z. ground arith) in
        let d₁ : Disk = disk_writeblock s.disk m (of_direntries es) in
        let d₂ : Disk = disk_writeblock d₁ b (of_inode new) in
        let d₃ : Disk = disk_writeblock d₂ p (of_inode (appended i m)) in
        let u : Tables = tables dev (record { disk = d₃; free = rest }) in
        let read_new : read_inode dev d₃ b ≡ new =
          read_inode-write_ne dev d₂ p b _ (λ z. ground arith)
          ∙ read_inode-write_self dev d₁ b new fresh_b'.1 is_new.shape in
        let read_dir : read_inode dev d₃ p ≡ appended i m =
          read_inode-write_self dev d₂ p (appended i m) p_range (appended-IsInode i m shape) in
        let read_es : read_direntries dev d₃ m ≡ es =
          read_direntries-write_ne dev d₂ p m _ (λ z. ground arith)
          ∙ read_direntries-write_ne dev d₁ b m _ (λ z. ground arith)
          ∙ read_direntries-write_self dev s.disk m es m_range
              (fill_entry-IsDirentries new_direntries 0 b name short new_direntries-IsDirentries) in
        (
          assign role' b (inode_at m 0),
          link-Inv v u role' inv' b p i.size m 0 refl (ground arith) (ground arith)
              (ground (arith, target_at-new_direntries 0))
              (λ j. rw read_es (
                ground (
                  arith,
                  target_at-fill_entry new_direntries 0 b name j,
                  new_direntries-IsDirentries,
                )))
              (rw read_new is_new.type_is) (rw read_new is_new.size_is)
              (λ k. rw read_new (used_empty new k is_new.size_is))
              (λ q z. elim (Bool-cases (q == p)) [
                | inl y ↦ ground (arith, read_dir)
                | inr n ↦ rw n (
                    read_inode-write_ne dev d₂ p q _ (λ k. ground arith)
                    ∙ read_inode-write_ne dev d₁ b q _ (λ k. ground arith)
                    ∙ read_inode-write_ne dev s.disk m q _ (λ k. ground arith))
              ])
              (λ q k c z n. rw (==_ne c m n) (
                read_direntries-write_ne dev d₂ p c _ (λ y. ground arith)
                ∙ read_direntries-write_ne dev d₁ b c _ (λ y. ground arith)
                ∙ read_direntries-write_ne dev s.disk m c _ (λ y. n (sym y)))),
        )

    -- `s'` is the store once block `b` is taken.
    pub extend_dir-IsSound :
        (p b : ℕ) (rest unread : List ℕ)
        → s.free ≡ b ∷ rest
        → rest ≡ unread
        → holds_inode (role p) ≡ true
        → (read_inode dev s.disk p).type ≡ b'd'
        → (read_inode dev s.disk p).size < fs_maxfileblocks
        → IsSound dev
            (extend_dir dev
              (record s { free = rest })
              (record { inode = read_inode dev s.disk p; block = p })
              b
              new
              name
              unread).0
    unfolding extend_dir
    extend_dir-IsSound p b rest [] e k h d l =
        (role, subst (λ f. Inv (tables dev (record s { free = f })) role) e inv)
    extend_dir-IsSound p b rest (m ∷ unread) e k h d l =
        extend-IsSound p b m unread (e ∙ ap (◌∷◌ b) k) h d l
