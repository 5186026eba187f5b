-- ===== src/FileSystem/Arrays.antt =====
-- The arrays of inodes and direntries under the updates of filesystem.cpp.
use os_from_scratch.Common.{
  ℕ, zero, suc, ◌+◌, ◌-◌, ◌<◌, ◌≤◌, ◌≡◌, ◌⊎◌, inl, refl, true, List, [], ◌∷◌, some, none, get_elem?,
  get_or, set, take, length, replicate, All, Bytes, ◌==◌, ltb, if◌then◌else◌, arith, length-set,
  get_elem?_below, get_or-get_elem?, length-strcpy, length-replicate,
}
use os_from_scratch.Params.{fs_maxfilename, fs_direntries}
use os_from_scratch.Disk.{Direntry, Inode, IsDirentries, used}
use os_from_scratch.FileSystem.Create.{fill_entry, new_direntries, zero_entry}
use os_from_scratch.FileSystem.Delete.{shift, drop_block, clear_entry, only_target}
use os_from_scratch.FileSystem.Invariant.{target_at}

module _ {ℓ} {A : Type ℓ} where
  pub get_elem?-take_if :
      (n : ℕ) (xs : List A) (i : ℕ)
      → get_elem? (take n xs) i ≡ (if ltb i n then get_elem? xs i else none)
  get_elem?-take_if zero xs i = ground arith
  get_elem?-take_if (suc n) [] i = ground arith
  get_elem?-take_if (suc n) (x ∷ xs) zero = ground arith
  get_elem?-take_if (suc n) (x ∷ xs) (suc i) = ground (arith, get_elem?-take_if n xs i)

  pub get_elem?-set_if :
      (xs : List A) (i j : ℕ) (v : A)
      → i < length xs
      → get_elem? (set xs i v) j ≡ (if j == i then some v else get_elem? xs j)
  get_elem?-set_if [] i j v h = absurd (omega arith)
  get_elem?-set_if (x ∷ xs) zero zero v h = ground arith
  get_elem?-set_if (x ∷ xs) zero (suc j) v h = ground arith
  get_elem?-set_if (x ∷ xs) (suc i) zero v h = ground arith
  get_elem?-set_if (x ∷ xs) (suc i) (suc j) v h = ground (arith, get_elem?-set_if xs i j v)

-- An inode with one block more shows that block at the end, and the others where they were.
pub used_grown :
    (i : Inode) (b k : ℕ)
    → i.size < length i.blocks
    → get_elem? (used (record i { blocks = set i.blocks i.size b; size = i.size + 1 })) k
      ≡ (if k == i.size then some b else get_elem? (used i) k)
used_grown i b k h = ground (
  arith,
  get_elem?-take_if (i.size + 1) (set i.blocks i.size b) k,
  get_elem?-take_if i.size i.blocks k,
  get_elem?-set_if i.blocks i.size k b,
)

pub target_at-fill_entry :
    (es : List Direntry) (j b : ℕ) (name : Bytes) (k : ℕ)
    → j < length es
    → target_at (fill_entry es j b name) k ≡ (if k == j then b else target_at es k)
unfolding fill_entry
target_at-fill_entry [] j b name k h = absurd (omega arith)
target_at-fill_entry (e ∷ es) zero b name zero h = ground arith
target_at-fill_entry (e ∷ es) zero b name (suc k) h = ground arith
target_at-fill_entry (e ∷ es) (suc j) b name zero h = ground arith
target_at-fill_entry (e ∷ es) (suc j) b name (suc k) h =
    ground (arith, target_at-fill_entry es j b name k)

pub target_at-clear_entry :
    (es : List Direntry) (j k : ℕ)
    → target_at (clear_entry es j) k ≡ (if k == j then 0 else target_at es k)
unfolding clear_entry
target_at-clear_entry [] j k = ground arith
target_at-clear_entry (e ∷ es) zero zero = ground arith
target_at-clear_entry (e ∷ es) zero (suc k) = ground arith
target_at-clear_entry (e ∷ es) (suc j) zero = ground arith
target_at-clear_entry (e ∷ es) (suc j) (suc k) = ground (arith, target_at-clear_entry es j k)

target_at-replicate : (n k : ℕ) (e : Direntry) → e.inode_block ≡ 0 → target_at (replicate n e) k ≡ 0
target_at-replicate zero k e h = refl
target_at-replicate (suc n) zero e h = h
target_at-replicate (suc n) (suc k) e h = target_at-replicate n k e h

pub target_at-new_direntries : (k : ℕ) → target_at new_direntries k ≡ 0
unfolding new_direntries
target_at-new_direntries k = target_at-replicate fs_direntries k zero_entry refl

-- In a block that can be given back each entry is unused or names the target.
pub only_target_at :
    (b : ℕ) (es : List Direntry) (k : ℕ)
    → only_target b es ≡ true
    → (target_at es k ≡ 0) ⊎ (target_at es k ≡ b)
unfolding only_target
only_target_at b [] k h = inl refl
only_target_at b (e ∷ es) zero h = ground arith
only_target_at b (e ∷ es) (suc k) h = ground (arith, only_target_at b es k)

abbrev IsName : Direntry → Type 0
IsName e = length e.name ≡ suc fs_maxfilename

fill_entry_count :
    (es : List Direntry) (j b : ℕ) (name : Bytes) → length (fill_entry es j b name) ≡ length es
unfolding fill_entry
fill_entry_count [] j b name = refl
fill_entry_count (e ∷ es) zero b name = refl
fill_entry_count (e ∷ es) (suc j) b name = omega (arith, fill_entry_count es j b name)

fill_entry_names :
    (es : List Direntry) (j b : ℕ) (name : Bytes)
    → length name ≤ fs_maxfilename
    → All IsName es
    → All IsName (fill_entry es j b name)
unfolding fill_entry
fill_entry_names [] j b name h k = tt
fill_entry_names (e ∷ es) zero b name h k =
    (omega (arith, length-strcpy e.name name (omega (arith, k.0)), k.0), k.1)
fill_entry_names (e ∷ es) (suc j) b name h k = (k.0, fill_entry_names es j b name h k.1)

-- A name of at most 59 bytes fits its array.
pub fill_entry-IsDirentries :
    (es : List Direntry) (j b : ℕ) (name : Bytes)
    → length name ≤ fs_maxfilename
    → IsDirentries es
    → IsDirentries (fill_entry es j b name)
fill_entry-IsDirentries es j b name h k = record {
  count = omega (arith, fill_entry_count es j b name, k.count);
  names = fill_entry_names es j b name h k.names;
}

clear_entry_count : (es : List Direntry) (j : ℕ) → length (clear_entry es j) ≡ length es
unfolding clear_entry
clear_entry_count [] j = refl
clear_entry_count (e ∷ es) zero = refl
clear_entry_count (e ∷ es) (suc j) = omega (arith, clear_entry_count es j)

clear_entry_names : (es : List Direntry) (j : ℕ) → All IsName es → All IsName (clear_entry es j)
unfolding clear_entry
clear_entry_names [] j k = tt
clear_entry_names (e ∷ es) zero k = k
clear_entry_names (e ∷ es) (suc j) k = (k.0, clear_entry_names es j k.1)

pub clear_entry-IsDirentries :
    (es : List Direntry) (j : ℕ) → IsDirentries es → IsDirentries (clear_entry es j)
clear_entry-IsDirentries es j k = record {
  count = omega (arith, clear_entry_count es j, k.count);
  names = clear_entry_names es j k.names;
}

replicate_names : (n : ℕ) (e : Direntry) → IsName e → All IsName (replicate n e)
replicate_names zero e h = tt
replicate_names (suc n) e h = (h, replicate_names n e h)

pub new_direntries-IsDirentries : IsDirentries new_direntries
unfolding new_direntries
new_direntries-IsDirentries = record {
  count = length-replicate fs_direntries zero_entry;
  names =
      replicate_names fs_direntries zero_entry (length-replicate {A = ℕ} (suc fs_maxfilename) 0);
}

pub length-shift : (n i : ℕ) (bs : List ℕ) → length (shift n i bs) ≡ length bs
unfolding shift
length-shift zero i bs = refl
length-shift (suc n) i bs = omega (
  arith,
  length-shift n (i + 1) (set bs i (get_or bs (i + 1) 0)),
  length-set bs i (get_or bs (i + 1) 0),
)

-- `n` rounds from `i` on move the `n` blocks behind `i` down by one.
get_elem?-shift :
    (n i : ℕ) (bs : List ℕ) (k : ℕ)
    → i + n < length bs
    → get_elem? (shift n i bs) k ≡ (
        if ltb k i
        then get_elem? bs k
        else if ltb k (i + n)
        then get_elem? bs (suc k)
        else get_elem? bs k)
unfolding shift
get_elem?-shift zero i bs k h = ground arith
get_elem?-shift (suc n) i bs k h =
    let (v, e) = get_elem?_below bs (i + 1) (omega arith) in
    let bs' = set bs i (get_or bs (i + 1) 0) in
    ground (
      arith,
      e,
      get_or-get_elem? bs (i + 1) 0 e,
      length-set bs i (get_or bs (i + 1) 0),
      get_elem?-shift n (i + 1) bs' k (omega (arith, length-set bs i (get_or bs (i + 1) 0))),
      get_elem?-set_if bs i k (get_or bs (i + 1) 0),
      get_elem?-set_if bs i (suc k) (get_or bs (i + 1) 0),
    )

-- The directory shows the same blocks without the one at the position.
pub used-drop_block :
    (inode : Inode) (position k : ℕ)
    → position < inode.size
    → inode.size ≤ length inode.blocks
    → get_elem? (used (drop_block inode position)) k
      ≡ get_elem? (used inode) (if ltb k position then k else suc k)
unfolding drop_block
used-drop_block inode position k h l = ground (
  arith,
  get_elem?-take_if (inode.size - 1) (shift (inode.size - 1 - position) position inode.blocks) k,
  get_elem?-take_if inode.size inode.blocks k,
  get_elem?-take_if inode.size inode.blocks (suc k),
  get_elem?-shift (inode.size - 1 - position) position inode.blocks k,
)
