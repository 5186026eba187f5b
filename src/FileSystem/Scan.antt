-- ===== src/FileSystem/Scan.antt =====
-- filesystem.cpp, execute_request for FS_CREATE: what the search of the parent finds.
use os_from_scratch.Common.{
  ℕ, suc, ◌+◌, ◌<◌, ◌≡◌, ◌⊎◌, inl, inr, refl, ap, ◌∙◌, Bool, true, false, List, [], ◌∷◌, Option,
  some, none, get_elem?, length, Bytes, ◌==◌, arith, Bool-cases, Option-cases,
}
use os_from_scratch.Disk.{Device, Direntry, names_file}
use os_from_scratch.FileSystem.Traverse.{read_direntries}
use os_from_scratch.FileSystem.Create.{Spot, first_spot, scan_entries, scan_blocks}
use os_from_scratch.FileSystem.Invariant.{target_at}

-- A spot is an unused entry of `es`, which are the direntries of `block` from index `j` on.
abbrev IsSpot : ℕ → List Direntry → ℕ → List Direntry → Spot → Type 0
IsSpot block all j es spot =
    (k : ℕ) × (spot ≡ record { block = block; index = j + k; direntries = all })
    × (target_at es k ≡ 0)
    × (k < length es)

module _ (name : Bytes) (block : ℕ) (all : List Direntry) where
  scan_entries_spot :
      (j : ℕ) (es : List Direntry) (acc : Option Spot) {spot : Spot}
      → scan_entries name block all j es acc ≡ some (some spot)
      → (acc ≡ some spot) ⊎ IsSpot block all j es spot
  unfolding scan_entries
  scan_entries_spot j [] acc h = inl (ground arith)
  scan_entries_spot j (e ∷ es) acc {spot} h = elim (Bool-cases (names_file name e)) [
    | inl y ↦ absurd (ground arith)
    | inr n ↦ step acc (e.inode_block == 0) refl (
        scan_entries_spot (j + 1) es
          (first_spot acc (e.inode_block == 0)
            (record { block = block; index = j; direntries = all }))
          (ground arith))
  ]
    where
      step :
          (acc : Option Spot) (vacant : Bool)
          → (e.inode_block == 0) ≡ vacant
          → (first_spot acc vacant (record { block = block; index = j; direntries = all })
              ≡ some spot)
            ⊎ IsSpot block all (j + 1) es spot
          → (acc ≡ some spot) ⊎ IsSpot block all j (e ∷ es) spot
      step acc vacant k (inr (i, p, q, l)) = inr (suc i, rw p (ground arith), q, omega arith)
      step (some old) vacant k (inl p) = inl p
      step none true k (inl p) = inr (0, ground arith, ground arith, omega arith)
      step none false k (inl p) = absurd (cc)

module _ (dev : Device) where
  open dev use {Disk}

  abbrev SpotIn : Disk → List ℕ → Spot → Type 0
  SpotIn d bs spot =
      (i : ℕ) × (get_elem? bs i ≡ some spot.block)
      × (spot.direntries ≡ read_direntries dev d spot.block)
      × (target_at spot.direntries spot.index ≡ 0)
      × (spot.index < length spot.direntries)

  scan_blocks_at :
      (d : Disk) (name : Bytes) (bs : List ℕ) (acc : Option Spot) {spot : Spot}
      → scan_blocks dev d name bs acc ≡ some (some spot)
      → (acc ≡ some spot) ⊎ SpotIn d bs spot
  unfolding scan_blocks
  scan_blocks_at d name [] acc h = inl (ground arith)
  scan_blocks_at d name (b ∷ bs) acc {spot} h =
      let es : List Direntry = read_direntries dev d b in
      elim (Option-cases (scan_entries name b es 0 es acc)) [
        | inl e ↦ absurd (ground arith)
        | inr (acc', e) ↦ elim (scan_blocks_at d name bs acc' (ground arith)) [
          | inr (i, g, s, v, l) ↦ inr (suc i, g, s, v, l)
          | inl p ↦ elim (scan_entries_spot name b es 0 es acc {spot = spot} (e ∙ ap some p)) [
            | inl q ↦ inl q
            | inr (k, s, v, l) ↦ inr (0, ground arith, ground arith, ground arith, ground arith)
          ]
        ]
      ]

  -- The spot that the search returns is an unused entry of one of the blocks.
  pub scan_blocks_spot :
      (d : Disk) (name : Bytes) (bs : List ℕ) {spot : Spot}
      → scan_blocks dev d name bs none ≡ some (some spot)
      → SpotIn d bs spot
  scan_blocks_spot d name bs h = elim (scan_blocks_at d name bs none h) [
    | inl e ↦ absurd (cc)
    | inr p ↦ p
  ]
