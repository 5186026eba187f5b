-- ===== src/FileSystem/Invariant/Reorder.antt =====
-- The order of the free list, which the invariant leaves open.
use mathlib.Core.List.{Perm}
use mathlib.Core.List.Perm
use os_from_scratch.Common.{ℕ, List}
use os_from_scratch.FileSystem.Invariant.{Role, Tables, Inv}

pub reorder-Inv :
    (t : Tables) (role : ℕ → Role) (unused : List ℕ)
    → Perm t.unused unused
    → Inv t role
    → Inv (record t { unused = unused }) role
reorder-Inv t role unused p inv = record {
  root_role = inv.root_role;
  root_type = inv.root_type;
  in_range = inv.in_range;
  type_of = inv.type_of;
  size_of = inv.size_of;
  content_from = inv.content_from;
  content_to = inv.content_to;
  entry_from = inv.entry_from;
  entry_to = inv.entry_to;
  unused_from = λ c m. inv.unused_from c ((Perm.mem_iff p).1 m);
  unused_to = λ c h k. (Perm.mem_iff p).0 (inv.unused_to c h k);
  unused_once = Perm.nodup p inv.unused_once;
}
