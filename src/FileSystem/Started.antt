-- ===== src/FileSystem/Started.antt =====
-- filesystem.cpp, fs_init: the free list that the server starts with.
pub mod Walk
pub mod Visits
pub mod Tree
pub mod Path
use os_from_scratch.Common.{
  ℕ, zero, suc, ◌+◌, ◌≡◌, ◌<◌, refl, inl, inr, Bool, true, false, not, ◌&&◌, List, [], ◌∷◌, ◌==◌,
  ltb, leb, arith, Bool-cases, subst, sym, ◌≢◌,
}
use os_from_scratch.Params.{fs_disksize}
use os_from_scratch.Disk.{Device, Store}
use os_from_scratch.FileSystem.Init.{
  Checked, done, assert_failed, out_of_fuel, contains, initial_traverse_helper, unused_from,
  free_after, fs_init,
}
use os_from_scratch.FileSystem.Started.Tree.{root, InUse, walk-InUse}
use os_from_scratch.FileSystem.Started.Path.{distinct, fs_init_ends}

contains-unused_from :
    (n i : ℕ) (u : List ℕ) (c : ℕ)
    → contains (unused_from n i u) c ≡ (leb i c && ltb c (i + n) && not (contains u c))
unfolding unused_from contains
contains-unused_from zero i u c = ground arith
contains-unused_from (suc n) i u c = elim (Bool-cases (i == c)) [
  | inl e ↦ ground (arith, contains-unused_from n (i + 1) u c)
  | inr e ↦ ground (arith, contains-unused_from n (i + 1) u c)
]

unused_from-distinct : (n i : ℕ) (u : List ℕ) → distinct (unused_from n i u) ≡ true
unfolding unused_from distinct
unused_from-distinct zero i u = refl
unused_from-distinct (suc n) i u =
    ground (arith, unused_from-distinct n (i + 1) u, contains-unused_from n (i + 1) u i)

not_both : {b : Bool} → b ≡ false → ¬ b ≡ true
not_both m h = ground arith

-- The free list's blocks, from what the walk met, for a disk of `suc n` blocks.
free_blocks :
    (n c : ℕ) (w free : List ℕ)
    → contains free c ≡ (leb 1 c && ltb c (1 + n) && not (contains w c))
    → (contains free c ≡ true → (c < suc n) × (c ≢ 0) × (contains w c ≡ false))
      × (c < suc n → c ≢ 0 → contains w c ≡ false → contains free c ≡ true)
free_blocks n c w free q = (λ h. ground arith, λ b z h. ground arith)

module _ (dev : Device) where
  open dev use {Disk}

  -- The free list has the blocks of the disk that are not in use, each once, and nothing else.
  abbrev pub IsFreeList : Disk → List ℕ → Type 0
  IsFreeList d free =
      (distinct free ≡ true)
      × ((c : ℕ)
          → (contains free c ≡ true → (c < fs_disksize) × ¬ InUse dev d c)
            × (c < fs_disksize → ¬ InUse dev d c → contains free c ≡ true))

  -- A failed assert ends the server; running out of fuel would be a fault of the model.
  pub Starts : Disk → Checked (Store Disk) → Type 0
  Starts d (done s) = (s.disk ≡ d) × IsFreeList d s.free
  Starts d assert_failed = Unit
  Starts d out_of_fuel = ⊥

  free_after-Starts :
      (d : Disk) (r : Checked (List ℕ))
      → initial_traverse_helper dev (suc fs_disksize) d [] 0 ≡ r
      → Starts d (free_after dev d r)
  unfolding free_after Starts
  free_after-Starts d (done w) e = (
    refl,
    (
      unused_from-distinct 4095 1 w,
      λ c.
          let q = free_blocks 4095 c w (unused_from 4095 1 w) (contains-unused_from 4095 1 w c) in
          let r = walk-InUse dev (suc fs_disksize) d w c e in
          (
            λ h. let (b, z, m) = q.0 h in (b, λ i. not_both m (r.1 z i)),
            λ b n.
                q.1 b (λ z. n (subst (InUse dev d) (sym z) (inl root)))
                  (elim (Bool-cases (contains w c)) [ inl y ↦ absurd (n (r.0 y)) | inr y ↦ y ]),
          ),
    ),
  )
  free_after-Starts d assert_failed e = _
  free_after-Starts d out_of_fuel e = fs_init_ends dev d e

  -- For each disk, the start of the server either fails an assert or gives the disk as it is, with a
  -- free list that has each block of the disk that is not in use, once, and nothing else. In use are
  -- the inodes of the tree below the root, the root's block, and the data blocks of those inodes.
  -- The walk never runs out of its fuel.
  pub fs_init_lem : (d : Disk) → Starts d (fs_init dev d)
  unfolding fs_init
  fs_init_lem d = free_after-Starts d (initial_traverse_helper dev (suc fs_disksize) d [] 0) refl
