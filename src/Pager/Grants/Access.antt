-- ===== src/Pager/Grants/Access.antt =====
-- vm_pager.cpp, vm_fault: the entries of a page that was accessed.
use os_from_scratch.Common.{
  ℕ, ◌<◌, ◌≤◌, ◌≡◌, inl, inr, refl, sym, subst, ap, ◌∙◌, Bool, true, false, ◌||◌, some, update,
  arith, length, Bool-cases, Option-cases, ==_refl,
}
use os_from_scratch.Pager.{PtePtr, PhysicalPage, VirtualPage, Machine, Pager, put_page}
use os_from_scratch.Pager.Ptes.{enables, can_update, update_ptes}
use os_from_scratch.Pager.Fault.{
  has_ptr, needs_frame, access_page, mark_accessed, if_loaded, load_page,
}
use os_from_scratch.Pager.Sound.{IsSound}
use os_from_scratch.Pager.Sound.Access.{needs_frame-ppn_of}
use os_from_scratch.Pager.Content.Maps.{load_page-IsAccessed}
use os_from_scratch.Pager.Grants.{Holds, entry_of, update_ptes-Holds, enables_lem}

-- What the process can do at the address: its entry there, if it has a table, leads to the page's
-- frame and allows reads, and writes if they are asked for.
pub record IsGranted {Page Files : Type 0} (t : Pager Page Files) (ptr : PtePtr) (p : ℕ)
    (write_flag : Bool) : Type 0 where
  pub frame : PhysicalPage
  pub in_memory : ((t.pages p).physical_page ≡ some frame) × ((t.pages p).resident ≡ true)
  pub entry : Holds ptr (entry_of (t.pages p) frame) t.process_table
  pub readable : (entry_of (t.pages p) frame).read_enable ≡ true
  pub writable : write_flag ≡ true → (entry_of (t.pages p) frame).write_enable ≡ true

-- The asserts of updatePTEs: as many entries as blocks.
can_update-length :
    (v : VirtualPage) (f : PhysicalPage)
    → v.physical_page ≡ some f
    → v.resident ≡ true
    → f.clocked ≡ true
    → can_update v ≡ true
    → length v.blocks ≤ 1
    → v.is_swap ≡ true
    → length v.affiliated ≡ 1
unfolding can_update
can_update-length v f e r c h b w = ground (arith, e, r, c, w, h, b)

pub update_ptes-IsGranted :
    {Page Files : Type 0} (s : Pager Page Files) (p : ℕ) (v : VirtualPage) (f : PhysicalPage)
    (ptr : PtePtr) (write_flag : Bool)
    → v.physical_page ≡ some f
    → v.resident ≡ true
    → f.clocked ≡ true
    → (write_flag ≡ true → (f.dirty ≡ true) × (length v.blocks ≤ 1))
    → has_ptr ptr v.affiliated ≡ true
    → (update_ptes (put_page s p v) v).aborted ≡ false
    → IsGranted (update_ptes (put_page s p v) v) ptr p write_flag
unfolding update_ptes
update_ptes-IsGranted s p v f ptr write_flag e r c d h a =
    let ok : can_update v ≡ true = ground (arith, a) in
    let (can_read, can_write) = enables_lem v f e r c in
    let here : update s.pages p v p ≡ v = rw (==_refl p) refl in
    record {
      frame = f;
      in_memory = (ap (λ x. x.physical_page) here ∙ e, ap (λ x. x.resident) here ∙ r);
      entry =
          subst (λ x. Holds ptr (entry_of x f) (update_ptes (put_page s p v) v).process_table)
            (sym here) (update_ptes-Holds (put_page s p v) v f ptr e h);
      readable = ap (λ x. (enables x).0) here ∙ can_read;
      writable = λ w.
          ap (λ x. (enables x).1) here ∙ can_write (d w).0 (can_update-length v f e r c ok (d w).1);
    }

module _ (m : Machine) where
  open m use {Page, Files}

  mark_accessed-IsGranted :
      (s : Pager Page Files) (p : ℕ) (write_flag : Bool) (ptr : PtePtr)
      → (s.pages p).resident ≡ true
      → has_ptr ptr (s.pages p).affiliated ≡ true
      → (write_flag ≡ true → length (s.pages p).blocks ≤ 1)
      → (mark_accessed m s p write_flag).aborted ≡ false
      → IsGranted (mark_accessed m s p write_flag) ptr p write_flag
  unfolding mark_accessed
  mark_accessed-IsGranted s p write_flag ptr r h b a =
      elim (Option-cases (s.pages p).physical_page) [
        | inl e ↦ absurd (ground arith)
        | inr (f, e) ↦
            rw (mark_accessed, e)
              (update_ptes-IsGranted _ p _
                (record f { clocked = true; dirty = f.dirty || write_flag }) ptr write_flag refl r
                refl (λ w. (ground arith, b w)) h (rw (mark_accessed, e) at a))
      ]

  if_loaded-IsGranted :
      (t : Pager Page Files × Bool) (p : ℕ) (write_flag : Bool) (ptr : PtePtr)
      → (t.1 ≡ true
          → ((t.0.pages p).resident ≡ true)
            × (has_ptr ptr (t.0.pages p).affiliated ≡ true)
            × (write_flag ≡ true → length (t.0.pages p).blocks ≤ 1))
      → (if_loaded m t p write_flag).1 ≡ true
      → (if_loaded m t p write_flag).0.aborted ≡ false
      → IsGranted (if_loaded m t p write_flag).0 ptr p write_flag
  unfolding if_loaded
  if_loaded-IsGranted (s, true) p write_flag ptr h e a =
      let (r, o, b) = h refl in mark_accessed-IsGranted s p write_flag ptr r o b a
  if_loaded-IsGranted (s, false) p write_flag ptr h e a = absurd (ground arith)

  pub access_page-IsGranted :
      {cap : ℕ} (c : 2 ≤ cap) (s : Pager Page Files)
      → IsSound cap s
      → (p : ℕ) → p < s.next_page
      → (write_flag : Bool) (ptr : PtePtr) → has_ptr ptr (s.pages p).affiliated ≡ true
      → (write_flag ≡ true → length (s.pages p).blocks ≤ 1)
      → (access_page m s p write_flag).1 ≡ true
      → (access_page m s p write_flag).0.aborted ≡ false
      → IsGranted (access_page m s p write_flag).0 ptr p write_flag
  unfolding access_page
  access_page-IsGranted c s h p l write_flag ptr o b e a =
      elim (Bool-cases (needs_frame (s.pages p))) [
        | inl y ↦
            let z = needs_frame-ppn_of (s.pages p) (h.framed.resident_iff p) y in
            rw (access_page, y)
              (if_loaded-IsGranted (load_page m s p) p write_flag ptr
                (λ f.
                  let (r, same_blocks, same_entries) = load_page-IsAccessed m c s h p l z f in
                  (
                    r,
                    ap (has_ptr ptr) same_entries ∙ o,
                    λ w. subst (λ x. length x ≤ 1) (sym same_blocks) (b w),
                  ))
                (rw (access_page, y) at e) (rw (access_page, y) at a))
        | inr y ↦
            rw (access_page, y)
              (if_loaded-IsGranted (s, true) p write_flag ptr (λ f. (ground arith, o, b)) refl
                (rw (access_page, y) at a))
      ]
