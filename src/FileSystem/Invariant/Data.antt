-- ===== src/FileSystem/Invariant/Data.antt =====
-- A change of file data touches no inode and no direntries.
use os_from_scratch.Common.{ℕ, ◌≡◌, true, arith}
use os_from_scratch.FileSystem.Invariant.{Role, content, holds_inode, Tables, Inv}

module _ (t u : Tables) (role : ℕ → Role) (inv : Inv t role) (same_unused : u.unused ≡ t.unused)
    (same_inode : (q : ℕ) → holds_inode (role q) ≡ true → u.inode q ≡ t.inode q)
    (same_entries : (q i c : ℕ)
      → role c ≡ content q i
      → (t.inode q).type ≡ b'd'
      → u.entries c ≡ t.entries c) where
  -- The invariant holds still, with the same roles.
  pub data-Inv : Inv u role
  data-Inv = record {
    root_role = inv.root_role;
    root_type = ground (arith, inv.root_role, inv.root_type, same_inode 0);
    in_range = inv.in_range;
    type_of = λ q h. ground (arith, inv.type_of q, same_inode q);
    size_of = λ q h. ground (arith, inv.size_of q, same_inode q);
    content_from = λ q i c h e. ground (arith, inv.content_from q i c, same_inode q);
    content_to = λ q i c h. ground (arith, inv.content_to q i c, same_inode q);
    entry_from = λ q i c j h d k.
        ground
          (arith, inv.content_to q i c, inv.entry_from q i c j, same_inode q, same_entries q i c);
    entry_to = λ c j b h.
        let (q, i, r, d, k) = inv.entry_to c j b h in
        (
          q,
          i,
          r,
          ground (arith, inv.content_to q i c, same_inode q),
          ground (arith, same_entries q i c),
        );
    unused_from = λ c m. inv.unused_from c (rw same_unused at m);
    unused_to = λ c h k. rw same_unused (inv.unused_to c h k);
    unused_once = rw same_unused inv.unused_once;
  }
