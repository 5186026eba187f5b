-- ===== src/FileSystem/Init.antt =====
-- filesystem.cpp, fs_init: the free list is what a walk over the whole tree does not reach.
use os_from_scratch.Common.{
  ℕ, zero, suc, ◌+◌, Bool, true, false, List, [], ◌∷◌, ◌==◌, ◌||◌, leb, if◌then◌else◌,
}
use os_from_scratch.Params.{fs_disksize}
use os_from_scratch.Disk.{Device, Direntry, Inode, used, Store}
use os_from_scratch.FileSystem.Traverse.{read_inode, read_direntries}

-- A set of blocks is the list of those inserted, newest first.
unfoldable pub contains : List ℕ → ℕ → Bool
contains [] b = false
contains (x ∷ xs) b = b == x || contains xs b

-- What a part of the start comes to: an assert may fail, and a walk be deeper than its fuel.
pub data Checked {ℓ} (A : Type ℓ) : Type ℓ where
  done : A → Checked A
  assert_failed out_of_fuel : Checked A

infixl 5 ◌>>=◌
abbrev ◌>>=◌ : Checked (List ℕ) → (List ℕ → Checked (List ℕ)) → Checked (List ℕ)
done u >>= f = f u
assert_failed >>= f = assert_failed
out_of_fuel >>= f = out_of_fuel

-- `assert(!blocks_used.contains(b)); blocks_used.insert(b)`.
unfoldable pub mark : List ℕ → ℕ → Checked (List ℕ)
unfolding contains
mark blocks_used b = if contains blocks_used b then assert_failed else done (b ∷ blocks_used)

unfoldable pub mark_all : List ℕ → List ℕ → Checked (List ℕ)
unfolding mark
mark_all blocks_used [] = done blocks_used
mark_all blocks_used (b ∷ bs) = do blocks_used' ← mark blocks_used b; mark_all blocks_used' bs

-- The loop over a directory's entries; `visit` is the recursive call on an inode.
unfoldable pub visit_entry : (List ℕ → ℕ → Checked (List ℕ)) → List ℕ → ℕ → Checked (List ℕ)
unfolding mark
visit_entry visit blocks_used b = elim (b == 0) [
  | true ↦ done blocks_used
  | false ↦ (mark blocks_used b >>= λ u. visit u b)
]

unfoldable pub visit_entries :
    (List ℕ → ℕ → Checked (List ℕ)) → List ℕ → List Direntry → Checked (List ℕ)
unfolding visit_entry
visit_entries visit blocks_used [] = done blocks_used
visit_entries visit blocks_used (e ∷ es) = do
  blocks_used' ← visit_entry visit blocks_used e.inode_block
  visit_entries visit blocks_used' es

-- The blocks from `i` on that are not in use, with the rounds left first.
unfoldable pub unused_from : ℕ → ℕ → List ℕ → List ℕ
unfolding contains
unused_from zero i blocks_used = []
unused_from (suc n) i blocks_used =
    let rest = unused_from n (i + 1) blocks_used in
    if contains blocks_used i then rest else i ∷ rest

module _ (dev : Device) where
  open dev use {Disk}

  -- disk_readblock asserts that the block is one of the disk.
  unfoldable pub visit_blocks :
      (List ℕ → ℕ → Checked (List ℕ)) → Disk → List ℕ → List ℕ → Checked (List ℕ)
  unfolding visit_entries
  visit_blocks visit d blocks_used [] = done blocks_used
  visit_blocks visit d blocks_used (b ∷ bs) = if leb fs_disksize b then assert_failed else do
    blocks_used' ← visit_entries visit blocks_used (read_direntries dev d b)
    visit_blocks visit d blocks_used' bs

  unfoldable pub visit_inode :
      (List ℕ → ℕ → Checked (List ℕ)) → Disk → List ℕ → Inode → Checked (List ℕ)
  unfolding visit_blocks
  visit_inode visit d blocks_used inode = elim (inode.type == b'f') [
    | true ↦ done blocks_used
    | false ↦ elim (inode.type == b'd') [
      | true ↦ visit_blocks visit d blocks_used (used inode)
      | false ↦ assert_failed
    ]
  ]

  unfoldable pub initial_traverse_helper : ℕ → Disk → List ℕ → ℕ → Checked (List ℕ)
  unfolding mark_all visit_inode
  initial_traverse_helper zero d blocks_used b = out_of_fuel
  initial_traverse_helper (suc fuel) d blocks_used b =
      if leb fs_disksize b then assert_failed else do
        blocks_used' ← mark_all blocks_used (used (read_inode dev d b))
        visit_inode (initial_traverse_helper fuel d) d blocks_used' (read_inode dev d b)

  unfoldable pub free_after : Disk → Checked (List ℕ) → Checked (Store Disk)
  unfolding unused_from
  free_after d (done blocks_used) =
      done (record { disk = d; free = unused_from 4095 1 blocks_used })
  free_after d assert_failed = assert_failed
  free_after d out_of_fuel = out_of_fuel

  unfoldable pub fs_init : Disk → Checked (Store Disk)
  unfolding initial_traverse_helper free_after
  fs_init d = free_after d (initial_traverse_helper (suc fs_disksize) d [] 0)
