-- ===== src/FileSystem/Invariant/Shrink.antt =====
-- A directory gives back a direntries block with no entry in use; the later blocks move down.
use mathlib.Core.List.{Mem, Nodup, Perm, mem-singleton, Nodup-cons, Nodup-nil, not-mem-nil}
use native.Mathlib.Nat.{ℕ_set}
use os_from_scratch.Common.{
  ℕ, suc, ◌-◌, ◌≤◌, ◌≡◌, ◌≢◌, ◌⊎◌, inl, inr, refl, true, [], ◌∷◌, ◌++◌, some, get_elem?, ◌==◌, ltb,
  if◌then◌else◌, arith,
}
use os_from_scratch.Disk.{used}
use os_from_scratch.FileSystem.Invariant.GiveBack.{Freed, given_from, given_to, given_once}
use os_from_scratch.FileSystem.Invariant.{
  Role, free, root, inode_at, content, holds_inode, target_at, Tables, Inv,
}

-- The roles once inode `p` has lost the block at position `i₀`.
abbrev pub shrunk : ℕ → ℕ → Role → Role
shrunk p i₀ free = free
shrunk p i₀ root = root
shrunk p i₀ (inode_at c j) = inode_at c j
shrunk p i₀ (content q i) =
    if q == p
    then if i == i₀ then free else content q (if ltb i₀ i then i - 1 else i)
    else content q i

module _ (t u : Tables) (role : ℕ → Role) (inv : Inv t role) (p i₀ c₀ : ℕ)
    (lost : role c₀ ≡ content p i₀) (given : Perm u.unused (t.unused ++ c₀ ∷ []))
    (no_entries : (j : ℕ) → target_at (t.entries c₀) j ≡ 0)
    (moved : (i : ℕ)
      → get_elem? (used (u.inode p)) i
        ≡ get_elem? (used (t.inode p)) (if ltb i i₀ then i else suc i))
    (less : (u.inode p).size ≤ (t.inode p).size) (same_type : (u.inode p).type ≡ (t.inode p).type)
    (same_inode : (q : ℕ) → holds_inode (role q) ≡ true → q ≢ p → u.inode q ≡ t.inode q)
    (same_entries : (q i c : ℕ) → role c ≡ content q i → c ≢ c₀ → u.entries c ≡ t.entries c) where
  abbrev new_role : ℕ → Role
  new_role c = shrunk p i₀ (role c)

  -- The lost block is the only one at its position.
  only_lost : (c : ℕ) → role c ≡ content p i₀ → c ≡ c₀
  only_lost c h = ground (arith, inv.content_to p i₀ c, inv.content_to p i₀ c₀, lost)

  shrink_type_of :
      (q : ℕ)
      → holds_inode (new_role q) ≡ true
      → ((u.inode q).type ≡ b'f') ⊎ ((u.inode q).type ≡ b'd')
  shrink_type_of q h = ground (arith, inv.type_of q, same_inode q)

  shrink_content_from :
      (q i c : ℕ)
      → holds_inode (new_role q) ≡ true
      → get_elem? (used (u.inode q)) i ≡ some c
      → new_role c ≡ content q i
  shrink_content_from q i c h e =
      ground (arith, inv.content_from q i c, inv.content_from q (suc i) c, same_inode q, moved i)

  shrink_content_to_at :
      (q i c : ℕ) (r : Role)
      → role c ≡ r
      → shrunk p i₀ r ≡ content q i
      → (holds_inode (new_role q) ≡ true) × (get_elem? (used (u.inode q)) i ≡ some c)
  shrink_content_to_at q i c free e h = absurd (cc)
  shrink_content_to_at q i c root e h = absurd (cc)
  shrink_content_to_at q i c (inode_at c' j) e h = absurd (cc)
  shrink_content_to_at q i c (content q' k) e h =
      ground (arith, inv.content_to q' k c, same_inode q', moved i)

  shrink_content_to :
      (q i c : ℕ)
      → new_role c ≡ content q i
      → (holds_inode (new_role q) ≡ true) × (get_elem? (used (u.inode q)) i ≡ some c)
  shrink_content_to q i c = shrink_content_to_at q i c (role c) refl

  shrink_entry_from :
      (q i c j : ℕ)
      → new_role c ≡ content q i
      → (u.inode q).type ≡ b'd'
      → target_at (u.entries c) j ≢ 0
      → new_role (target_at (u.entries c) j) ≡ inode_at c j
  shrink_entry_from q i c j h d k = shrink_entry_from_at (role c) refl h
    where
      shrink_entry_from_at :
          (r : Role)
          → role c ≡ r
          → shrunk p i₀ r ≡ content q i
          → new_role (target_at (u.entries c) j) ≡ inode_at c j
      shrink_entry_from_at free e h' = absurd (cc)
      shrink_entry_from_at root e h' = absurd (cc)
      shrink_entry_from_at (inode_at c' j') e h' = absurd (cc)
      shrink_entry_from_at (content q' k') e h' = ground (
        arith,
        lost,
        same_type,
        inv.content_to q' k' c,
        same_inode q',
        same_entries q' k' c,
        inv.entry_from q' k' c j,
      )

  shrink_entry_to :
      (c j x : ℕ)
      → new_role x ≡ inode_at c j
      → (q : ℕ) × (i : ℕ) × (new_role c ≡ content q i)
        × ((u.inode q).type ≡ b'd')
        × (target_at (u.entries c) j ≡ x)
  shrink_entry_to c j x h =
      let (q, i, r, d, k) = inv.entry_to c j x (ground arith) in
      (
        q,
        if q == p then (if ltb i₀ i then i - 1 else i) else i,
        ground (arith, only_lost c, no_entries j, inv.root_role),
        ground (arith, inv.content_to q i c, same_inode q),
        ground (arith, same_entries q i c, no_entries j, inv.root_role),
      )

  Freed-from : (c : ℕ) → Mem c (c₀ ∷ []) → Freed role new_role c
  Freed-from c m = let e = (mem-singleton ℕ_set).0 m in ground (arith, lost)

  freed_to : (c : ℕ) → new_role c ≡ free → (role c ≡ free) ⊎ Mem c (c₀ ∷ [])
  freed_to c h = freed_to_at (role c) refl h
    where
      freed_to_at :
          (r : Role) → role c ≡ r → shrunk p i₀ r ≡ free → (role c ≡ free) ⊎ Mem c (c₀ ∷ [])
      freed_to_at free e h' = inl e
      freed_to_at root e h' = absurd (cc)
      freed_to_at (inode_at c' j) e h' = absurd (cc)
      freed_to_at (content q i) e h' = inr ((mem-singleton ℕ_set).1 (ground (arith, only_lost c)))

  freed_once : Nodup (c₀ ∷ [])
  freed_once = Nodup-cons.1 (not-mem-nil, Nodup-nil)

  free_stays : (c : ℕ) → role c ≡ free → new_role c ≡ free
  free_stays c h = ground arith

  -- The directory is one block shorter, and the invariant holds still.
  pub shrink-Inv : Inv u new_role
  shrink-Inv = record {
    root_role = ground (arith, inv.root_role);
    root_type = ground (arith, inv.root_role, inv.root_type, same_inode 0);
    in_range = λ c h. ground (arith, inv.in_range c);
    type_of = shrink_type_of;
    size_of = λ q h. ground (arith, inv.size_of q, same_inode q);
    content_from = shrink_content_from;
    content_to = shrink_content_to;
    entry_from = shrink_entry_from;
    entry_to = shrink_entry_to;
    unused_from =
        given_from t role new_role inv (c₀ ∷ []) u.unused given freed_once Freed-from freed_to
          free_stays;
    unused_to =
        given_to t role new_role inv (c₀ ∷ []) u.unused given freed_once Freed-from freed_to
          free_stays;
    unused_once =
        given_once t role new_role inv (c₀ ∷ []) u.unused given freed_once Freed-from freed_to
          free_stays;
  }
