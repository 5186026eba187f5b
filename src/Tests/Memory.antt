-- ===== src/Tests/Memory.antt =====
-- A disk in memory: a block is remembered with the struct that was written to it.
use os_from_scratch.Common.{
  ℕ, zero, suc, ◌≡◌, ◌≢◌, refl, ap, ◌<◌, List, [], ◌∷◌, length, All, ◌==◌, if◌then◌else◌, Bytes,
  arith, replicate, ==_refl, ==_ne,
}
use os_from_scratch.Params.{fs_disksize, fs_maxfilename}
use os_from_scratch.Disk.{Device, Direntry, Inode, IsInode, IsDirentries}

pub data MemoryBlock : Type 0 where
  inode_block : Inode → MemoryBlock
  direntries_block : List Direntry → MemoryBlock
  data_block : Bytes → MemoryBlock

-- `n` numbers: what is missing is 0.
unfoldable pub fit : ℕ → List ℕ → List ℕ
fit zero xs = []
fit (suc n) [] = 0 ∷ fit n []
fit (suc n) (x ∷ xs) = x ∷ fit n xs

length-fit : (n : ℕ) (xs : List ℕ) → length (fit n xs) ≡ n
unfolding fit
length-fit zero xs = refl
length-fit (suc n) [] = ap suc (length-fit n [])
length-fit (suc n) (x ∷ xs) = ap suc (length-fit n xs)

fit_self : (n : ℕ) (xs : List ℕ) → length xs ≡ n → fit n xs ≡ xs
unfolding fit
fit_self zero [] h = refl
fit_self zero (x ∷ xs) h = absurd (omega arith)
fit_self (suc n) [] h = absurd (omega arith)
fit_self (suc n) (x ∷ xs) h = ap (◌∷◌ x) (fit_self n xs (omega arith))

unfoldable pub fit_inode : Inode → Inode
unfolding fit
fit_inode i = record i { owner = fit 11 i.owner; blocks = fit 124 i.blocks }

unfoldable pub fit_entry : Direntry → Direntry
unfolding fit
fit_entry e = record e { name = fit 60 e.name }

unfoldable pub fit_entries : ℕ → List Direntry → List Direntry
unfolding fit_entry
fit_entries zero es = []
fit_entries (suc n) [] = fit_entry (record { name = []; inode_block = 0 }) ∷ fit_entries n []
fit_entries (suc n) (e ∷ es) = fit_entry e ∷ fit_entries n es

-- What a block that holds no inode is read as.
abbrev pub blank : Inode
blank = record { type = 0; owner = []; size = 0; blocks = [] }

unfoldable pub to_inode : MemoryBlock → Inode
unfolding fit_inode
to_inode (inode_block i) = fit_inode i
to_inode (direntries_block es) = fit_inode blank
to_inode (data_block x) = fit_inode blank

unfoldable pub to_direntries : MemoryBlock → List Direntry
unfolding fit_entries
to_direntries (inode_block i) = fit_entries 8 []
to_direntries (direntries_block es) = fit_entries 8 es
to_direntries (data_block x) = fit_entries 8 []

fit_inode-IsInode : (i : Inode) → IsInode (fit_inode i)
unfolding fit_inode
fit_inode-IsInode i = record {
  owner_length = length-fit 11 i.owner;
  blocks_length = length-fit 124 i.blocks;
}

pub to_inode-IsInode : (x : MemoryBlock) → IsInode (to_inode x)
unfolding to_inode
to_inode-IsInode (inode_block i) = fit_inode-IsInode i
to_inode-IsInode (direntries_block es) = fit_inode-IsInode blank
to_inode-IsInode (data_block x) = fit_inode-IsInode blank

pub fit_inode_self : (i : Inode) → IsInode i → to_inode (inode_block i) ≡ i
unfolding fit_inode to_inode
fit_inode_self i h = λ k. record i {
  owner = fit_self 11 i.owner h.owner_length k;
  blocks = fit_self 124 i.blocks h.blocks_length k;
}

abbrev IsName : Direntry → Type 0
IsName e = length e.name ≡ suc fs_maxfilename

fit_entries_count : (n : ℕ) (es : List Direntry) → length (fit_entries n es) ≡ n
unfolding fit_entries
fit_entries_count zero es = refl
fit_entries_count (suc n) [] = ap suc (fit_entries_count n [])
fit_entries_count (suc n) (e ∷ es) = ap suc (fit_entries_count n es)

fit_entries_names : (n : ℕ) (es : List Direntry) → All IsName (fit_entries n es)
unfolding fit_entries
fit_entries_names zero es = tt
fit_entries_names (suc n) [] = (length-fit 60 [], fit_entries_names n [])
fit_entries_names (suc n) (e ∷ es) = (length-fit 60 e.name, fit_entries_names n es)

fit_entries-IsDirentries : (es : List Direntry) → IsDirentries (fit_entries 8 es)
fit_entries-IsDirentries es = record {
  count = fit_entries_count 8 es;
  names = fit_entries_names 8 es;
}

pub to_direntries-IsDirentries : (x : MemoryBlock) → IsDirentries (to_direntries x)
unfolding to_direntries
to_direntries-IsDirentries (inode_block i) = fit_entries-IsDirentries []
to_direntries-IsDirentries (direntries_block es) = fit_entries-IsDirentries es
to_direntries-IsDirentries (data_block x) = fit_entries-IsDirentries []

fit_entries_self :
    (n : ℕ) (es : List Direntry) → length es ≡ n → All IsName es → fit_entries n es ≡ es
unfolding fit_entries
fit_entries_self zero [] h k = refl
fit_entries_self zero (e ∷ es) h k = absurd (omega arith)
fit_entries_self (suc n) [] h k = absurd (omega arith)
fit_entries_self (suc n) (e ∷ es) h k =
    λ j. record e { name = fit_self 60 e.name k.0 j } ∷ fit_entries_self n es (omega arith) k.1 j

pub to_direntries_self :
    (es : List Direntry) → IsDirentries es → to_direntries (direntries_block es) ≡ es
unfolding to_direntries
to_direntries_self es h = fit_entries_self 8 es h.count h.names

unfoldable pub write : (ℕ → MemoryBlock) → ℕ → MemoryBlock → ℕ → MemoryBlock
write d b x c = if b == c then x else d c

pub read-write_self :
    (d : ℕ → MemoryBlock) (b : ℕ) (x : MemoryBlock) → b < fs_disksize → write d b x b ≡ x
unfolding write
read-write_self d b x h = rw (==_refl b)

pub read-write_ne : (d : ℕ → MemoryBlock) (b c : ℕ) (x : MemoryBlock) → b ≢ c → write d b x c ≡ d c
unfolding write
read-write_ne d b c x h = rw (==_ne b c h)

abbrev pub memory : Device
memory = record {
  Block = MemoryBlock;
  Disk = ℕ → MemoryBlock;
  disk_readblock = λ d b. d b;
  disk_writeblock = write;
  inode_of = to_inode;
  of_inode = inode_block;
  direntries_of = to_direntries;
  of_direntries = direntries_block;
  read-write_self = read-write_self;
  read-write_ne = read-write_ne;
  inode_of-IsInode = to_inode-IsInode;
  inode_of-of_inode = fit_inode_self;
  direntries_of-IsDirentries = to_direntries-IsDirentries;
  direntries_of-of_direntries = to_direntries_self;
}

-- What the storage of a new inode may hold before it is filled in.
abbrev pub junk : Inode
junk = record { type = 7; owner = replicate 11 9; size = 99; blocks = replicate 124 77 }

pub junk-IsInode : IsInode junk
junk-IsInode = record { owner_length = refl; blocks_length = refl }

-- A freshly made file system: an empty root, that belongs to nobody.
abbrev pub empty_disk : ℕ → MemoryBlock
empty_disk b =
    if b == 0
    then inode_block (record { type = b'd'; owner = []; size = 0; blocks = [] })
    else data_block []
