-- ===== src/FileSystem/Invariant/Link.antt =====
-- A block is taken from the free list and becomes an empty inode, named by an unused entry.
use os_from_scratch.Common.{
  ℕ, ◌<◌, ◌≤◌, ◌≡◌, ◌≢◌, ◌⊎◌, inl, inr, true, ◌∷◌, some, none, get_elem?, ◌==◌, if◌then◌else◌,
  arith, Bool-cases,
}
use os_from_scratch.Params.{fs_maxfileblocks, fs_disksize}
use os_from_scratch.Disk.{used}
use os_from_scratch.FileSystem.Invariant.Allocate.{
  first_free, rest_once, rest_unused_from, rest_unused_to,
}
use os_from_scratch.FileSystem.Invariant.{
  Role, free, inode_at, content, holds_inode, target_at, Tables, Inv, assign,
}

module _ (t u : Tables) (role : ℕ → Role) (inv : Inv t role) (n p i₀ c₀ j₀ : ℕ)
    (taken : t.unused ≡ n ∷ u.unused) (in_dir : role c₀ ≡ content p i₀)
    (is_dir : (t.inode p).type ≡ b'd') (vacant : target_at (t.entries c₀) j₀ ≡ 0)
    (filled : (j : ℕ)
      → target_at (u.entries c₀) j ≡ (if j == j₀ then n else target_at (t.entries c₀) j))
    (new_type : ((u.inode n).type ≡ b'f') ⊎ ((u.inode n).type ≡ b'd'))
    (new_size : (u.inode n).size ≡ 0) (new_used : (i : ℕ) → get_elem? (used (u.inode n)) i ≡ none)
    (same_inode : (q : ℕ) → holds_inode (role q) ≡ true → u.inode q ≡ t.inode q)
    (same_entries : (q i c : ℕ) → role c ≡ content q i → c ≢ c₀ → u.entries c ≡ t.entries c) where
  abbrev new_role : ℕ → Role
  new_role = assign role n (inode_at c₀ j₀)

  abbrev n_free : (role n ≡ free) × (n < fs_disksize)
  n_free = first_free t role inv n u.unused taken

  link_in_range : (c : ℕ) → new_role c ≢ free → c < fs_disksize
  link_in_range c h = ground (arith, n_free, inv.in_range c)

  link_type_of :
      (q : ℕ)
      → holds_inode (new_role q) ≡ true
      → ((u.inode q).type ≡ b'f') ⊎ ((u.inode q).type ≡ b'd')
  link_type_of q h = ground (arith, n_free, new_type, inv.type_of q, same_inode q)

  link_size_of : (q : ℕ) → holds_inode (new_role q) ≡ true → (u.inode q).size ≤ fs_maxfileblocks
  link_size_of q h = ground (arith, n_free, inv.size_of q, same_inode q)

  link_content_from :
      (q i c : ℕ)
      → holds_inode (new_role q) ≡ true
      → get_elem? (used (u.inode q)) i ≡ some c
      → new_role c ≡ content q i
  link_content_from q i c h e =
      ground (arith, n_free, inv.content_from q i c, same_inode q, new_used i)

  link_content_to :
      (q i c : ℕ)
      → new_role c ≡ content q i
      → (holds_inode (new_role q) ≡ true) × (get_elem? (used (u.inode q)) i ≡ some c)
  link_content_to q i c h = ground (arith, n_free, inv.content_to q i c, same_inode q)

  link_entry_from :
      (q i c j : ℕ)
      → new_role c ≡ content q i
      → (u.inode q).type ≡ b'd'
      → target_at (u.entries c) j ≢ 0
      → new_role (target_at (u.entries c) j) ≡ inode_at c j
  link_entry_from q i c j h d k = ground (
    arith,
    n_free,
    inv.content_to q i c,
    same_inode q,
    same_entries q i c,
    filled j,
    inv.entry_from q i c j,
  )

  link_entry_to :
      (c j b : ℕ)
      → new_role b ≡ inode_at c j
      → (q : ℕ) × (i : ℕ) × (new_role c ≡ content q i)
        × ((u.inode q).type ≡ b'd')
        × (target_at (u.entries c) j ≡ b)
  link_entry_to c j b h = elim (Bool-cases (b == n)) [
    | inl e ↦ (
      p,
      i₀,
      ground (arith, n_free),
      ground (arith, inv.content_to p i₀ c₀, same_inode p),
      ground (arith, filled j),
    )
    | inr e ↦
        let (q, i, r, d, k) = inv.entry_to c j b (ground arith) in
        (
          q,
          i,
          ground (arith, n_free),
          ground (arith, inv.content_to q i c, same_inode q),
          ground (arith, same_entries q i c, filled j, inv.root_role),
        )
  ]

  -- The entry names the new inode, and the invariant holds still.
  pub link-Inv : Inv u new_role
  link-Inv = record {
    root_role = ground (arith, n_free, inv.root_role);
    root_type = ground (arith, inv.root_role, inv.root_type, same_inode 0);
    in_range = link_in_range;
    type_of = link_type_of;
    size_of = link_size_of;
    content_from = link_content_from;
    content_to = link_content_to;
    entry_from = link_entry_from;
    entry_to = link_entry_to;
    unused_from = rest_unused_from t role inv n u.unused taken (inode_at c₀ j₀);
    unused_to = rest_unused_to t role inv n u.unused taken (inode_at c₀ j₀) (λ e. cc);
    unused_once = (rest_once t role inv n u.unused taken).1;
  }
