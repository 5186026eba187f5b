-- ===== src/FileSystem/Invariant/Prune.antt =====
-- An entry is cleared, and the inode that it named gives back its blocks.
use mathlib.Core.List.{
  Mem, Nodup, Perm, mem-append, mem-append_left, mem-append_right, mem-singleton, Nodup-append,
  Nodup-cons, Nodup-nil, not-mem-nil, Disjoint-left,
}
use mathlib.Core.Logic.{∥∥₁_elim}
use mathlib.Core.Logic.Or
use native.Mathlib.Nat.{ℕ_set}
use os_from_scratch.Common.{
  ℕ, ◌≡◌, ◌≢◌, ◌⊎◌, inl, inr, refl, true, ◌&&◌, List, [], ◌∷◌, ◌++◌, some, none, get_elem?, ◌==◌,
  if◌then◌else◌, arith, mem_index, mem-get_elem?, Nodup-of_index,
}
use os_from_scratch.Disk.{used}
use os_from_scratch.FileSystem.Invariant.GiveBack.{
  Freed, Freed-prop, given_from, given_to, given_once,
}
use os_from_scratch.FileSystem.Invariant.{
  Role, free, root, inode_at, content, holds_inode, target_at, Tables, Inv,
}

-- The roles once entry `j₀` of block `c₀` is cleared, which named inode `b`.
abbrev pub pruned : ℕ → ℕ → ℕ → Role → Role
pruned c₀ j₀ b free = free
pruned c₀ j₀ b root = root
pruned c₀ j₀ b (inode_at c j) = if c == c₀ && j == j₀ then free else inode_at c j
pruned c₀ j₀ b (content q i) = if q == b then free else content q i

module _ (t u : Tables) (role : ℕ → Role) (inv : Inv t role) (b c₀ j₀ : ℕ)
    (named : role b ≡ inode_at c₀ j₀)
    (given : Perm u.unused (t.unused ++ (used (t.inode b) ++ b ∷ [])))
    (empty_dir : (t.inode b).type ≡ b'd' → (i : ℕ) → get_elem? (used (t.inode b)) i ≡ none)
    (cleared : (j : ℕ)
      → target_at (u.entries c₀) j ≡ (if j == j₀ then 0 else target_at (t.entries c₀) j))
    (same_inode : (q : ℕ) → holds_inode (role q) ≡ true → u.inode q ≡ t.inode q)
    (same_entries : (q i c : ℕ) → role c ≡ content q i → c ≢ c₀ → u.entries c ≡ t.entries c) where
  abbrev new_role : ℕ → Role
  new_role c = pruned c₀ j₀ b (role c)

  -- Only the target has the role of the cleared entry.
  only_named : (c : ℕ) → role c ≡ inode_at c₀ j₀ → c ≡ b
  only_named c h =
      let (_, _, _, _, e) = inv.entry_to c₀ j₀ c h in
      let (_, _, _, _, k) = inv.entry_to c₀ j₀ b named in cc

  prune_content_from :
      (q i c : ℕ)
      → holds_inode (new_role q) ≡ true
      → get_elem? (used (u.inode q)) i ≡ some c
      → new_role c ≡ content q i
  prune_content_from q i c h e = ground (arith, named, inv.content_from q i c, same_inode q)

  prune_content_to :
      (q i c : ℕ)
      → new_role c ≡ content q i
      → (holds_inode (new_role q) ≡ true) × (get_elem? (used (u.inode q)) i ≡ some c)
  prune_content_to q i c h = ground (arith, inv.content_to q i c, same_inode q, only_named q)

  prune_entry_from :
      (q i c j : ℕ)
      → new_role c ≡ content q i
      → (u.inode q).type ≡ b'd'
      → target_at (u.entries c) j ≢ 0
      → new_role (target_at (u.entries c) j) ≡ inode_at c j
  prune_entry_from q i c j h d k = ground (
    arith,
    inv.content_to q i c,
    same_inode q,
    same_entries q i c,
    cleared j,
    inv.entry_from q i c j,
  )

  prune_entry_to :
      (c j x : ℕ)
      → new_role x ≡ inode_at c j
      → (q : ℕ) × (i : ℕ) × (new_role c ≡ content q i)
        × ((u.inode q).type ≡ b'd')
        × (target_at (u.entries c) j ≡ x)
  prune_entry_to c j x h =
      let (q, i, r, d, k) = inv.entry_to c j x (ground arith) in
      (
        q,
        i,
        ground (arith, inv.content_to q i c r, λ (e : (t.inode b).type ≡ b'd'). empty_dir e i),
        ground (arith, inv.content_to q i c, same_inode q),
        ground (arith, same_entries q i c, cleared j),
      )

  freed_blocks : List ℕ
  freed_blocks = used (t.inode b) ++ b ∷ []

  Freed-content :
      (c : ℕ) → (i : ℕ) × (get_elem? (used (t.inode b)) i ≡ some c) → Freed role new_role c
  Freed-content c (i, e) = ground (arith, inv.content_from b i c, named)

  Freed-from : (c : ℕ) → Mem c freed_blocks → Freed role new_role c
  unfolding freed_blocks
  Freed-from c m =
      Or.elim (Freed-prop role new_role c) (mem-append.0 m)
        (λ x.
          ∥∥₁_elim (mem_index (used (t.inode b)) x) (Freed-prop role new_role c) (Freed-content c))
        (λ x. let e = (mem-singleton ℕ_set).0 x in ground (arith, named))

  freed_to_at :
      (c : ℕ) (r : Role)
      → role c ≡ r
      → pruned c₀ j₀ b r ≡ free
      → (role c ≡ free) ⊎ Mem c freed_blocks
  unfolding freed_blocks
  freed_to_at c free e h = inl e
  freed_to_at c root e h = absurd (cc)
  freed_to_at c (inode_at c' j) e h =
      inr (
        mem-append_right (used (t.inode b))
          ((mem-singleton ℕ_set).1 (ground (arith, only_named c))))
  freed_to_at c (content q i) e h = inr (
      mem-append_left (b ∷ [])
        (mem-get_elem? (used (t.inode b)) i (ground (arith, inv.content_to q i c))))

  freed_to : (c : ℕ) → new_role c ≡ free → (role c ≡ free) ⊎ Mem c freed_blocks
  freed_to c = freed_to_at c (role c) refl

  freed_once : Nodup freed_blocks
  unfolding freed_blocks
  freed_once = Nodup-append.1 (
    Nodup-of_index (used (t.inode b))
        (λ i j c h k. ground (arith, named, inv.content_from b i c, inv.content_from b j c)),
    Nodup-cons.1 (not-mem-nil, Nodup-nil),
    Disjoint-left.1 (λ c m n.
        let e = (mem-singleton ℕ_set).0 n in
        ∥∥₁_elim (mem_index (used (t.inode b)) m) (λ x y. absurd x)
          (λ (i, h). ground (arith, named, inv.content_from b i c))),
  )

  free_stays : (c : ℕ) → role c ≡ free → new_role c ≡ free
  free_stays c h = ground arith

  given' : Perm u.unused (t.unused ++ freed_blocks)
  unfolding freed_blocks
  given' = given

  -- The inode and its blocks are free, and the invariant holds still.
  pub prune-Inv : Inv u new_role
  prune-Inv = record {
    root_role = ground (arith, inv.root_role);
    root_type = ground (arith, inv.root_role, inv.root_type, same_inode 0);
    in_range = λ c h. ground (arith, inv.in_range c);
    type_of = λ q h. ground (arith, inv.type_of q, same_inode q);
    size_of = λ q h. ground (arith, inv.size_of q, same_inode q);
    content_from = prune_content_from;
    content_to = prune_content_to;
    entry_from = prune_entry_from;
    entry_to = prune_entry_to;
    unused_from =
        given_from t role new_role inv freed_blocks u.unused given' freed_once Freed-from freed_to
          free_stays;
    unused_to =
        given_to t role new_role inv freed_blocks u.unused given' freed_once Freed-from freed_to
          free_stays;
    unused_once =
        given_once t role new_role inv freed_blocks u.unused given' freed_once Freed-from freed_to
          free_stays;
  }
