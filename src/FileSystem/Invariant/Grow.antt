-- ===== src/FileSystem/Invariant/Grow.antt =====
-- A block is taken from the free list and becomes an inode's last.
use os_from_scratch.Common.{
  ℕ, ◌+◌, ◌<◌, ◌≤◌, ◌≡◌, ◌≢◌, ◌⊎◌, true, ◌∷◌, some, get_elem?, ◌==◌, if◌then◌else◌, arith, take_lt,
}
use os_from_scratch.Params.{fs_maxfileblocks, fs_disksize}
use os_from_scratch.Disk.{Inode, used}
use os_from_scratch.FileSystem.Invariant.Allocate.{
  first_free, rest_once, rest_unused_from, rest_unused_to,
}
use os_from_scratch.FileSystem.Invariant.{
  Role, free, inode_at, content, holds_inode, target_at, Tables, Inv, assign,
}

get_elem?-used : (i : Inode) (k : ℕ) {a : ℕ} → get_elem? (used i) k ≡ some a → k < i.size
get_elem?-used i k h = take_lt i.size i.blocks k h

module _ (t u : Tables) (role : ℕ → Role) (inv : Inv t role) (n p : ℕ)
    (p_inode : holds_inode (role p) ≡ true) (room : (t.inode p).size < fs_maxfileblocks)
    (taken : t.unused ≡ n ∷ u.unused)
    (grown : (i : ℕ)
      → get_elem? (used (u.inode p)) i
        ≡ (if i == (t.inode p).size then some n else get_elem? (used (t.inode p)) i))
    (grown_size : (u.inode p).size ≡ (t.inode p).size + 1)
    (same_type : (u.inode p).type ≡ (t.inode p).type)
    (same_inode : (q : ℕ) → holds_inode (role q) ≡ true → q ≢ p → u.inode q ≡ t.inode q)
    (same_entries : (q i c : ℕ) → role c ≡ content q i → u.entries c ≡ t.entries c)
    (no_entries : (t.inode p).type ≡ b'd' → (j : ℕ) → target_at (u.entries n) j ≡ 0) where
  abbrev new_role : ℕ → Role
  new_role = assign role n (content p (t.inode p).size)

  abbrev n_free : (role n ≡ free) × (n < fs_disksize)
  n_free = first_free t role inv n u.unused taken

  grow_in_range : (c : ℕ) → new_role c ≢ free → c < fs_disksize
  grow_in_range c h = ground (arith, n_free, inv.in_range c)

  grow_type_of :
      (q : ℕ)
      → holds_inode (new_role q) ≡ true
      → ((u.inode q).type ≡ b'f') ⊎ ((u.inode q).type ≡ b'd')
  grow_type_of q h = ground (arith, n_free, inv.type_of q, same_inode q)

  grow_size_of : (q : ℕ) → holds_inode (new_role q) ≡ true → (u.inode q).size ≤ fs_maxfileblocks
  grow_size_of q h = ground (arith, n_free, inv.size_of q, same_inode q)

  grow_content_from :
      (q i c : ℕ)
      → holds_inode (new_role q) ≡ true
      → get_elem? (used (u.inode q)) i ≡ some c
      → new_role c ≡ content q i
  grow_content_from q i c h e =
      ground (arith, n_free, inv.content_from q i c, same_inode q, grown i)

  grow_content_to :
      (q i c : ℕ)
      → new_role c ≡ content q i
      → (holds_inode (new_role q) ≡ true) × (get_elem? (used (u.inode q)) i ≡ some c)
  grow_content_to q i c h = ground (
    arith,
    n_free,
    inv.content_to q i c,
    inv.content_from p i c,
    same_inode q,
    grown i,
    get_elem?-used (t.inode p) i {a = c},
  )

  grow_entry_from :
      (q i c j : ℕ)
      → new_role c ≡ content q i
      → (u.inode q).type ≡ b'd'
      → target_at (u.entries c) j ≢ 0
      → new_role (target_at (u.entries c) j) ≡ inode_at c j
  grow_entry_from q i c j h d k = ground (
    arith,
    n_free,
    inv.content_to q i c,
    same_inode q,
    same_entries q i c,
    no_entries,
    λ (e : (t.inode p).type ≡ b'd'). no_entries e j,
    inv.entry_from q i c j,
  )

  grow_entry_to :
      (c j b : ℕ)
      → new_role b ≡ inode_at c j
      → (q : ℕ) × (i : ℕ) × (new_role c ≡ content q i)
        × ((u.inode q).type ≡ b'd')
        × (target_at (u.entries c) j ≡ b)
  grow_entry_to c j b h =
      let (q, i, e, d, k) = inv.entry_to c j b (ground (arith, n_free)) in
      (
        q,
        i,
        ground (arith, n_free),
        ground (arith, inv.content_to q i c, same_inode q),
        ground (arith, same_entries q i c),
      )

  -- The inode has one block more, and the invariant holds still.
  pub grow-Inv : Inv u new_role
  grow-Inv = record {
    root_role = ground (arith, n_free, inv.root_role);
    root_type = ground (arith, inv.root_role, inv.root_type, same_inode 0);
    in_range = grow_in_range;
    type_of = grow_type_of;
    size_of = grow_size_of;
    content_from = grow_content_from;
    content_to = grow_content_to;
    entry_from = grow_entry_from;
    entry_to = grow_entry_to;
    unused_from = rest_unused_from t role inv n u.unused taken (content p (t.inode p).size);
    unused_to = rest_unused_to t role inv n u.unused taken (content p (t.inode p).size) (λ e. cc);
    unused_once = (rest_once t role inv n u.unused taken).1;
  }
