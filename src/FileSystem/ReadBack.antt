-- ===== src/FileSystem/ReadBack.antt =====
-- filesystem.cpp: FS_WRITEBLOCK and then FS_READBLOCK.
use os_from_scratch.Common.{
  ℕ, suc, ◌<◌, ◌≡◌, ◌≢◌, inl, inr, refl, sym, subst, ap, ◌∙◌, Bool, true, false, List, [], ◌∷◌,
  Option, some, none, get_elem?, get_or, Bytes, ◌==◌, ltb, leb, arith, Bool-cases, Option-cases,
  get_or-get_elem?,
}
use os_from_scratch.Params.{fs_maxfileblocks}
use os_from_scratch.Disk.{Device, Inode, Store, used, owned_by}
use os_from_scratch.Request.{FilePath}
use os_from_scratch.FileSystem.Arrays.{get_elem?-set_if}
use os_from_scratch.FileSystem.Traverse.{
  InodeInfo, read_inode, read_direntries, find_entry, find_name, walk, traverse_fs,
}
use os_from_scratch.FileSystem.Blocks.{read_file, read_block, append_block, write_file, write_block}
use os_from_scratch.FileSystem.Lookup.{find_name-holds_inode, traverse_fs-holds_inode}
use os_from_scratch.FileSystem.Sound.Reads.{
  read_inode-write_ne, read_direntries-write_ne, read_inode-write_self,
}
use os_from_scratch.FileSystem.Sound.Write.{appended, appended-IsInode, block_at, at_disk}
use os_from_scratch.FileSystem.Invariant.Allocate.{first_free}
use os_from_scratch.FileSystem.Invariant.{Role, content, holds_inode, Inv, tables}

module _ (dev : Device) where
  open dev use {
    Block, Disk, disk_readblock, disk_writeblock, read-write_ne, read-write_self, inode_of-IsInode,
    of_inode,
  }

  -- A search of blocks whose direntries are the same finds the same.
  find_name_same :
      (d d' : Disk) (name : Bytes) (bs : List ℕ)
      → ((i c : ℕ) → get_elem? bs i ≡ some c → read_direntries dev d' c ≡ read_direntries dev d c)
      → find_name dev d' name bs ≡ find_name dev d name bs
  unfolding find_name
  find_name_same d d' name [] h = refl
  find_name_same d d' name (b ∷ bs) h =
      let rest = find_name_same d d' name bs (λ i c. h (suc i) c) in
      let here : find_entry name (read_direntries dev d' b)
          ≡ find_entry name (read_direntries dev d b) =
        ap (find_entry name) (h 0 b refl) in
      elim (Option-cases (find_entry name (read_direntries dev d b))) [
        | inl e ↦ ground (arith, here, e, rest)
        | inr (t, e) ↦ ground (arith, here, e)
      ]

  module _ (s : Store Disk) (role : ℕ → Role) (inv : Inv (tables dev s) role) (d' : Disk)
      (same_inode : (q : ℕ)
        → holds_inode (role q) ≡ true
        → (read_inode dev s.disk q).type ≡ b'd'
        → read_inode dev d' q ≡ read_inode dev s.disk q)
      (same_shape : (q : ℕ)
        → holds_inode (role q) ≡ true
        → ((read_inode dev d' q).type ≡ (read_inode dev s.disk q).type)
          × ((read_inode dev d' q).owner ≡ (read_inode dev s.disk q).owner))
      (same_entries : (q i c : ℕ)
        → role c ≡ content q i
        → (read_inode dev s.disk q).type ≡ b'd'
        → read_direntries dev d' c ≡ read_direntries dev s.disk c) where
    walk_same :
        (owner : Bytes) (at_root : Bool) (b : ℕ) (path : FilePath) {info : InodeInfo}
        → holds_inode (role b) ≡ true
        → walk dev s.disk owner at_root b path ≡ some info
        → walk dev d' owner at_root b path
          ≡ some (record { inode = read_inode dev d' info.block; block = info.block })
    unfolding walk owned_by
    walk_same owner at_root b [] h e = ground (arith, same_shape b h)
    walk_same owner at_root b (name ∷ path) {info} h e =
        elim (Option-cases (find_name dev s.disk name (used (read_inode dev s.disk b)))) [
          | inl k ↦ absurd (ground arith)
          | inr (t, k) ↦
              let d : (read_inode dev s.disk b).type ≡ b'd' = ground (arith, inv.type_of b h) in
              let found : find_name dev d' name (used (read_inode dev s.disk b)) ≡ some t =
                find_name_same s.disk d' name (used (read_inode dev s.disk b))
                  (λ i c g. same_entries b i c (inv.content_from b i c h g) d)
                ∙ k in
              rw (same_inode b h d, found)
                (ground (
                  arith,
                  walk_same owner false t path {info = info}
                      (find_name-holds_inode dev s role inv b name h d k) (ground arith),
                ))
        ]

    -- A traversal that only crosses directories that are the same ends at the same inode.
    traverse_fs_same :
        (name : Bytes) (path : FilePath) (owner : Bytes) {info : InodeInfo}
        → traverse_fs dev s.disk (name ∷ path) owner ≡ some info
        → traverse_fs dev d' (name ∷ path) owner
          ≡ some (record { inode = read_inode dev d' info.block; block = info.block })
    unfolding traverse_fs
    traverse_fs_same name path owner e =
        walk_same owner true 0 (name ∷ path) (ground (arith, inv.root_role)) e

  -- The file's data block `c` is at position `k` of inode `p`, and was just written.
  read_file_lem :
      (d' : Disk) (free' : List ℕ) (p k : ℕ) (x : Block)
      → (read_inode dev d' p).type ≢ b'd'
      → k < (read_inode dev d' p).size
      → disk_readblock d' (get_or (read_inode dev d' p).blocks k 0) ≡ x
      → read_file dev
          (record { disk = d'; free = free' })
          (record { inode = read_inode dev d' p; block = p })
          k
        ≡ some (some x)
  unfolding read_file
  read_file_lem d' free' p k x f l e = ground (arith, e)

  read_block_lem :
      (t : Store Disk) (username name : Bytes) (path : FilePath) (k : ℕ) {info : InodeInfo}
      {r : Option (Option Block)}
      → leb fs_maxfileblocks k ≡ false
      → traverse_fs dev t.disk (name ∷ path) username ≡ some info
      → read_file dev t info k ≡ r
      → read_block dev t username (name ∷ path) k ≡ r
  unfolding read_block
  read_block_lem t username name path k small e r = rw (small, e) r

  module _ (s : Store Disk) (role : ℕ → Role) (inv : Inv (tables dev s) role) where
    -- What a write to the file in inode `p` does to the rest of the disk.
    abbrev Writes : ℕ → ℕ → Block → Store Disk → Type 0
    Writes p k x t =
        ((name : Bytes) (path : FilePath) (owner : Bytes)
          → traverse_fs dev s.disk (name ∷ path) owner
            ≡ some (record { inode = read_inode dev s.disk p; block = p })
          → traverse_fs dev t.disk (name ∷ path) owner
            ≡ some (record { inode = read_inode dev t.disk p; block = p }))
        × (read_file dev t (record { inode = read_inode dev t.disk p; block = p }) k
            ≡ some (some x))

    overwrite-Writes :
        (p k : ℕ) (x : Block)
        → holds_inode (role p) ≡ true
        → (read_inode dev s.disk p).type ≢ b'd'
        → k < (read_inode dev s.disk p).size
        → Writes p k x (record s {
          disk = disk_writeblock s.disk (get_or (read_inode dev s.disk p).blocks k 0) x;
        })
    overwrite-Writes p k x h f l =
        let c : ℕ = get_or (read_inode dev s.disk p).blocks k 0 in
        let at_c : role c ≡ content p k = inv.content_from p k c h (
          block_at (read_inode dev s.disk p) k (inode_of-IsInode (disk_readblock s.disk p))
            (inv.size_of p h) l) in
        let d' : Disk = disk_writeblock s.disk c x in
        let kept = λ (q : ℕ) (z : holds_inode (role q) ≡ true).
          read_inode-write_ne dev s.disk c q x (λ y. ground arith) in
        (
          λ name path owner e.
              traverse_fs_same s role inv d' (λ q z _. kept q z)
                (λ q z. (ap (λ i. i.type) (kept q z), ap (λ i. i.owner) (kept q z)))
                (λ q i c' z y. read_direntries-write_ne dev s.disk c c' x (λ w. f (ground arith)))
                name path owner e,
          read_file_lem d' s.free p k x (rw (kept p h) f) (rw (kept p h) l)
              (rw (kept p h) (read-write_self s.disk c x (inv.in_range c (λ z. ground arith)))),
        )

    append-Writes :
        (p b : ℕ) (x : Block) (rest : List ℕ)
        → s.free ≡ b ∷ rest
        → holds_inode (role p) ≡ true
        → (read_inode dev s.disk p).type ≢ b'd'
        → (read_inode dev s.disk p).size < fs_maxfileblocks
        → Writes p (read_inode dev s.disk p).size x (record {
          disk =
              disk_writeblock
                (disk_writeblock s.disk b x)
                p
                (of_inode (appended (read_inode dev s.disk p) b));
          free = rest;
        })
    append-Writes p b x rest e h f l =
        let i : Inode = read_inode dev s.disk p in
        let shape = inode_of-IsInode (disk_readblock s.disk p) in
        let fresh = first_free (tables dev s) role inv b rest e in
        let d : Disk = disk_writeblock s.disk b x in
        let d' : Disk = disk_writeblock d p (of_inode (appended i b)) in
        let written : read_inode dev d' p ≡ appended i b =
          read_inode-write_self dev d p (appended i b) (inv.in_range p (λ z. ground arith))
            (appended-IsInode i b shape) in
        let kept = λ (q : ℕ) (z : holds_inode (role q) ≡ true) (n : q ≢ p).
          read_inode-write_ne dev d p q (of_inode (appended i b)) (λ y. n (sym y))
          ∙ read_inode-write_ne dev s.disk b q x (λ y. ground arith) in
        let last : get_or (appended i b).blocks i.size 0 ≡ b =
          get_or-get_elem? (appended i b).blocks i.size 0
            (ground (arith, get_elem?-set_if i.blocks i.size i.size b, shape.blocks_length)) in
        (
          λ name path owner k.
              traverse_fs_same s role inv d' (λ q z y. kept q z (λ w. f (ground arith)))
                (λ q z. elim (Bool-cases (q == p)) [
                  | inl y ↦ ground (arith, written)
                  | inr n ↦ (
                    ap (λ j. j.type) (kept q z (λ w. ground arith)),
                    ap (λ j. j.owner) (kept q z (λ w. ground arith)),
                  )
                ])
                (λ q j c z y.
                  read_direntries-write_ne dev d p c (of_inode (appended i b)) (λ w. ground arith)
                  ∙ read_direntries-write_ne dev s.disk b c x (λ w. ground arith))
                name path owner k,
          read_file_lem d' rest p i.size x (rw written f) (rw written (omega arith)) (
              rw (written, last)
                (read-write_ne d p b (of_inode (appended i b)) (λ w. ground arith)
                  ∙ read-write_self s.disk b x fresh.1)),
        )

    append_block-Writes :
        (p k : ℕ) (x : Block) (rest : List ℕ)
        → s.free ≡ rest
        → holds_inode (role p) ≡ true
        → (read_inode dev s.disk p).type ≢ b'd'
        → k < fs_maxfileblocks
        → k ≡ (read_inode dev s.disk p).size
        → (append_block dev s (record { inode = read_inode dev s.disk p; block = p }) k x rest).1
          ≡ some none
        → Writes p k x
            (append_block dev s (record { inode = read_inode dev s.disk p; block = p }) k x rest).0
    unfolding append_block
    append_block-Writes p k x [] e h f l m done = absurd (ground arith)
    append_block-Writes p k x (b ∷ rest) e h f l m done =
        let i : Inode = read_inode dev s.disk p in
        let shape = inode_of-IsInode (disk_readblock s.disk p) in
        let last : get_or (appended i b).blocks k 0 ≡ b =
          get_or-get_elem? (appended i b).blocks k 0
            (ground (arith, get_elem?-set_if i.blocks i.size k b, shape.blocks_length)) in
        rw last (
          subst
            (λ j. Writes p j x (record {
              disk = disk_writeblock (disk_writeblock s.disk b x) p (of_inode (appended i b));
              free = rest;
            }))
            (sym m) (append-Writes p b x rest e h f (omega (arith, m, l))))

    write_file-Writes :
        (p k : ℕ) (x : Block)
        → holds_inode (role p) ≡ true
        → k < fs_maxfileblocks
        → (write_file dev s (record { inode = read_inode dev s.disk p; block = p }) k x).1
          ≡ some none
        → ((read_inode dev s.disk p).type ≢ b'd')
          × Writes p k x
              (write_file dev s (record { inode = read_inode dev s.disk p; block = p }) k x).0
    unfolding write_file
    write_file-Writes p k x h l done = elim (Bool-cases ((read_inode dev s.disk p).type == b'd')) [
      | inl d ↦ absurd (ground arith)
      | inr f ↦ elim (Bool-cases (ltb k (read_inode dev s.disk p).size)) [
        | inl inside ↦
            rw (f, inside)
              (λ y. ground arith, overwrite-Writes p k x h (λ y. ground arith) (ground arith))
        | inr outside ↦ elim (Bool-cases (k == (read_inode dev s.disk p).size)) [
          | inl end ↦
              rw (f, outside, end)
                (
                  λ y. ground arith,
                  append_block-Writes p k x s.free refl h (λ y. ground arith) l (ground arith)
                      (ground arith),
                )
          | inr beyond ↦ absurd (ground arith)
        ]
      ]
    ]

    -- A block written to a file of a sound file system, with the write reported as done, is what
    -- a read of the same user, path and position then returns.
    pub write_block-read_block :
        (username : Bytes) (path : FilePath) (k : ℕ) (x : Block)
        → (write_block dev s username path k x).1 ≡ some none
        → read_block dev (write_block dev s username path k x).0 username path k ≡ some (some x)
    unfolding write_block
    write_block-read_block username [] k x done = absurd (ground arith)
    write_block-read_block username (name ∷ path) k x done =
        elim (Bool-cases (leb fs_maxfileblocks k)) [
          | inl big ↦ absurd (ground arith)
          | inr small ↦ elim (Option-cases (traverse_fs dev s.disk (name ∷ path) username)) [
            | inl e ↦ absurd (ground arith)
            | inr (info, e) ↦
                let (h, same, _) =
                  traverse_fs-holds_inode dev s role inv (name ∷ path) username e in
                let here = at_disk dev info same in
                let ok : (write_file dev s
                      (record { inode = read_inode dev s.disk info.block; block = info.block }) k
                      x).1
                    ≡ some none =
                  rw here (ground arith) in
                let (_, (found, back)) = write_file-Writes info.block k x h (ground arith) ok in
                let seen = e ∙ ap some (sym here) in
                let there = found name path username seen in
                let wrote : write_block dev s username (name ∷ path) k x
                    ≡ write_file dev s
                        (record { inode = read_inode dev s.disk info.block; block = info.block }) k
                        x =
                  rw (small, seen) refl in
                rw wrote (read_block_lem _ username name path k small there back)
          ]
        ]
