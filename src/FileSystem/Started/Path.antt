-- ===== src/FileSystem/Started/Path.antt =====
-- filesystem.cpp, initial_traverse_helper: the recursion is no deeper than the disk has blocks.
use os_from_scratch.Common.{
  ℕ, zero, suc, ◌+◌, ◌≡◌, ◌≢◌, ◌≤◌, ◌<◌, ◌⊎◌, inl, inr, refl, Bool, true, false, not, ◌&&◌, List,
  [], ◌∷◌, ◌==◌, leb, length, arith, Bool-cases, if◌then◌else◌, subst, sym, ==→≡,
}
use os_from_scratch.Params.{fs_disksize}
use os_from_scratch.Disk.{Device, Direntry, Inode, used}
use os_from_scratch.FileSystem.Traverse.{read_inode, read_direntries}
use os_from_scratch.FileSystem.Init.{
  Checked, done, out_of_fuel, contains, mark, mark_all, visit_entry, visit_entries, visit_blocks,
  visit_inode, initial_traverse_helper,
}
use os_from_scratch.FileSystem.Started.Walk.{Checked-cases, Sub, mark_all-Sub, mark_all_ends}
use os_from_scratch.FileSystem.Started.Tree.{walk-Sub}
use os_from_scratch.FileSystem.Started.Visits.{visit_entry-Sub, visit_entries-Sub}

-- No number is listed twice.
unfoldable pub distinct : List ℕ → Bool
unfolding contains
distinct [] = true
distinct (x ∷ xs) = not (contains xs x) && distinct xs

unfoldable without : ℕ → List ℕ → List ℕ
without n [] = []
without n (x ∷ xs) = let rest = without n xs in if x == n then rest else x ∷ rest

contains-without :
    (n : ℕ) (xs : List ℕ) (c : ℕ) → contains (without n xs) c ≡ (contains xs c && not (c == n))
unfolding without contains
contains-without n [] c = refl
contains-without n (x ∷ xs) c = ground (arith, contains-without n xs c)

without-distinct : (n : ℕ) (xs : List ℕ) → distinct xs ≡ true → distinct (without n xs) ≡ true
unfolding without distinct
without-distinct n [] h = refl
without-distinct n (x ∷ xs) h = ground (arith, without-distinct n xs, contains-without n xs x)

length-without_absent :
    (n : ℕ) (xs : List ℕ) → contains xs n ≡ false → length (without n xs) ≡ length xs
unfolding without contains
length-without_absent n [] h = refl
length-without_absent n (x ∷ xs) h = ground (arith, length-without_absent n xs)

length-without :
    (n : ℕ) (xs : List ℕ) → distinct xs ≡ true → length xs ≤ suc (length (without n xs))
unfolding without distinct contains
length-without n [] h = ground arith
length-without n (x ∷ xs) h = elim (Bool-cases (x == n)) [
  | inl e ↦ ground (arith, length-without_absent n xs)
  | inr e ↦ ground (arith, length-without n xs)
]

-- Different numbers below `n` are no more than `n`.
length-distinct :
    (n : ℕ) (xs : List ℕ)
    → distinct xs ≡ true
    → ((c : ℕ) → contains xs c ≡ true → c < n)
    → length xs ≤ n
unfolding contains
length-distinct zero [] h b = ground arith
length-distinct zero (x ∷ xs) h b = absurd (ground (arith, b x))
length-distinct (suc n) xs h b =
    let r =
      length-distinct n (without n xs) (without-distinct n xs h)
        (λ c q. ground (arith, contains-without n xs c, b c)) in
    ground (arith, length-without n xs h, r)

-- The inodes from the root to a directory: blocks of the disk, all different, and inserted.
abbrev IsPath : List ℕ → List ℕ → Type 0
IsPath path u =
    (distinct path ≡ true)
    × ((c : ℕ) → contains path c ≡ true → (c < fs_disksize) × ((c ≡ 0) ⊎ (contains u c ≡ true)))

IsPath-Sub : (path u v : List ℕ) → Sub u v → IsPath path u → IsPath path v
IsPath-Sub path u v s (h, k) =
    (h, λ c q. let r = k c q in (r.0, elim r.1 [ inl y ↦ inl y | inr y ↦ inr (s c y) ]))

IsPath-extend :
    (path u : List ℕ) (b : ℕ)
    → IsPath path u
    → contains path b ≡ false
    → (b ≡ 0) ⊎ (contains u b ≡ true)
    → leb fs_disksize b ≡ false
    → IsPath (b ∷ path) u
unfolding distinct contains
IsPath-extend path u b p h i o = (
  ground (arith, p.0, h),
  λ c q. elim (Bool-cases (c == b)) [
    | inl y ↦
        subst (λ a. (a < fs_disksize) × ((a ≡ 0) ⊎ (contains u a ≡ true))) (sym (==→≡ c b y))
          (ground (arith, o), i)
    | inr y ↦ p.1 c (ground (arith, q, y))
  ],
)

module _ (visit : List ℕ → ℕ → Checked (List ℕ)) (path : List ℕ)
    (grows : (u : List ℕ) (b : ℕ) (v : List ℕ) → visit u b ≡ done v → Sub u v)
    (ends : (u : List ℕ) (b : ℕ)
      → IsPath path u
      → contains path b ≡ false
      → contains u b ≡ true
      → visit u b ≢ out_of_fuel) where
  visit_entry_ends : (u : List ℕ) (b : ℕ) → IsPath path u → visit_entry visit u b ≢ out_of_fuel
  unfolding visit_entry mark contains
  visit_entry_ends u b p = λ e. elim (Bool-cases (b == 0)) [
    | inl z ↦ ground (arith, e, z)
    | inr z ↦ elim (Bool-cases (contains u b)) [
      | inl m ↦ ground (arith, e, z, m)
      | inr m ↦
          ends (b ∷ u) b (IsPath-Sub path u (b ∷ u) (λ c h. ground arith) p) (ground (arith, p.1 b))
            (ground arith) (ground (arith, e, z, m))
    ]
  ]

  visit_entries_ends :
      (u : List ℕ) (es : List Direntry) → IsPath path u → visit_entries visit u es ≢ out_of_fuel
  unfolding visit_entries
  visit_entries_ends u [] p = λ e. ground (arith, e)
  visit_entries_ends u (x ∷ es) p = λ e. elim (Checked-cases (visit_entry visit u x.inode_block)) [
    | inl (w, k) ↦
        visit_entries_ends w es
          (IsPath-Sub path u w (visit_entry-Sub visit grows u x.inode_block w k) p)
          (ground (arith, e, k))
    | inr (inl k) ↦ ground (arith, e, k)
    | inr (inr k) ↦ visit_entry_ends u x.inode_block p k
  ]

  module _ (dev : Device) where
    open dev use {Disk}

    visit_blocks_ends :
        (d : Disk) (u bs : List ℕ) → IsPath path u → visit_blocks dev visit d u bs ≢ out_of_fuel
    unfolding visit_blocks
    visit_blocks_ends d u [] p = λ e. ground (arith, e)
    visit_blocks_ends d u (b ∷ bs) p = λ e. elim (Bool-cases (leb fs_disksize b)) [
      | inl o ↦ ground (arith, e, o)
      | inr o ↦ elim (Checked-cases (visit_entries visit u (read_direntries dev d b))) [
        | inl (w, k) ↦
            visit_blocks_ends d w bs
              (IsPath-Sub path u w (visit_entries-Sub visit grows u (read_direntries dev d b) w k)
                p)
              (ground (arith, e, o, k))
        | inr (inl k) ↦ ground (arith, e, o, k)
        | inr (inr k) ↦ visit_entries_ends u (read_direntries dev d b) p k
      ]
    ]

module _ (dev : Device) where
  open dev use {Disk}

  visit_inode_ends :
      (visit : List ℕ → ℕ → Checked (List ℕ)) (path : List ℕ)
      → ((u : List ℕ) (b : ℕ) (v : List ℕ) → visit u b ≡ done v → Sub u v)
      → ((u : List ℕ) (b : ℕ)
          → IsPath path u
          → contains path b ≡ false
          → contains u b ≡ true
          → visit u b ≢ out_of_fuel)
      → (d : Disk) (u : List ℕ) (inode : Inode) → IsPath path u
      → visit_inode dev visit d u inode ≢ out_of_fuel
  unfolding visit_inode
  visit_inode_ends visit path grows ends d u inode p = λ e. elim (Bool-cases (inode.type == b'f')) [
    | inl f ↦ ground (arith, e, f)
    | inr f ↦ elim (Bool-cases (inode.type == b'd')) [
      | inl t ↦
          visit_blocks_ends visit path grows ends dev d u (used inode) p (ground (arith, e, f, t))
      | inr t ↦ ground (arith, e, f, t)
    ]
  ]

  walk_ends :
      (fuel : ℕ) (path : List ℕ) (d : Disk) (u : List ℕ) (b : ℕ)
      → fuel + length path ≡ suc fs_disksize
      → IsPath path u
      → contains path b ≡ false
      → (b ≡ 0) ⊎ (contains u b ≡ true)
      → initial_traverse_helper dev fuel d u b ≢ out_of_fuel
  unfolding initial_traverse_helper
  walk_ends zero path d u b n p h i =
      λ e. ground (arith, n, length-distinct fs_disksize path p.0 (λ c q. (p.1 c q).0))
  walk_ends (suc fuel) path d u b n p h i = λ e. elim (Bool-cases (leb fs_disksize b)) [
    | inl o ↦ ground (arith, e, o)
    | inr o ↦ elim (Checked-cases (mark_all u (used (read_inode dev d b)))) [
      | inl (v, k) ↦
          visit_inode_ends (initial_traverse_helper dev fuel d) (b ∷ path)
            (λ x c y q. (walk-Sub dev fuel d x c y q))
            (λ x c p' h' i'. walk_ends fuel (b ∷ path) d x c (omega (arith, n)) p' h' (inr i')) d v
            (read_inode dev d b)
            (IsPath-Sub (b ∷ path) u v (mark_all-Sub u (used (read_inode dev d b)) k).0
              (IsPath-extend path u b p h i o))
            (ground (arith, e, o, k))
      | inr (inl k) ↦ ground (arith, e, o, k)
      | inr (inr k) ↦ mark_all_ends u (used (read_inode dev d b)) k
    ]
  ]

  pub fs_init_ends : (d : Disk) → initial_traverse_helper dev (suc fs_disksize) d [] 0 ≢ out_of_fuel
  unfolding distinct contains
  fs_init_ends d =
      walk_ends (suc fs_disksize) [] d [] 0 (omega arith) (refl, λ c h. absurd (ground arith)) refl
        (inl refl)
