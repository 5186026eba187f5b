-- ===== src/Pager/Sound/Process.antt =====
-- vm_pager.cpp, vm_create and vm_destroy: the frames and the maps.
use os_from_scratch.Common.{
  ℕ, ◌<◌, inl, inr, refl, Bool, true, false, not, ◌&&◌, List, [], ◌∷◌, ◌++◌, Option, none, some,
  ltb, ◌==◌, if◌then◌else◌, length, update, arith, Bool-cases, Option-cases, both_branches,
}
use os_from_scratch.Pager.{
  Machine, Pager, vas_of, put_page, check, vm_arena_maxaddr, map_va, va_to_pte, is_empty,
}
use os_from_scratch.Pager.Ptes.{update_ptes, update_ptes_if_any}
use os_from_scratch.Pager.Clock.{return_ppn_remove_from_clock}
use os_from_scratch.Pager.Fault.{ppn_of, erase_ptr, has_ptr}
use os_from_scratch.Pager.Process.{
  swap_needed, take_swap, inherit_page, inherit_all, insert_table, inherit_from, start_first,
  vm_create, vm_switch, give_back_block, release_page, release_all, vm_destroy,
}
use os_from_scratch.Pager.Sound.{
  IsSound, StaysSound, StaysSound-trans, Maps, Maps-le, keep-IsSound, map_va-IsSound, pte-IsSound,
}
use os_from_scratch.Pager.Sound.Access.{return_ppn-IsSound}
use os_from_scratch.Pager.Sound.Map.{make_swap_to_nullpage-IsSound}

module _ {Page Files : Type 0} {cap : ℕ} where
  -- A page changes that keeps its physical page, and fields that frames and maps do not depend on.
  swap-IsSound :
      (s : Pager Page Files) (free : List ℕ)
      → IsSound cap s
      → IsSound cap (record s { next_free_swap = free })
  swap-IsSound s free h = record { framed = h.framed; mapped = h.mapped; named = h.named }

  take_swap-IsSound :
      (s : Pager Page Files) (p : ℕ) (free : List ℕ)
      → IsSound cap s
      → StaysSound cap s (take_swap s p (s.pages p) free)
  unfolding take_swap
  take_swap-IsSound s p [] h = (pte-IsSound s h s.process_table true, omega arith)
  take_swap-IsSound s p (block ∷ free) h =
      (keep-IsSound _ (swap-IsSound s free h) p _ refl refl, omega arith)

  inherit_page-IsSound :
      (s : Pager Page Files) (child va p : ℕ)
      → IsSound cap s
      → va < vm_arena_maxaddr
      → p < s.next_page
      → StaysSound cap s (inherit_page s child va p)
  unfolding inherit_page update_ptes
  inherit_page-IsSound s child va p h b l =
      let v = s.pages p in
      let s1 = map_va s child va p in
      let h1 : IsSound cap s1 = map_va-IsSound s h child va p b l in
      let s2 = if v.is_swap then take_swap s1 p v s1.next_free_swap else s1 in
      let k =
        both_branches (StaysSound cap s1) v.is_swap (take_swap-IsSound s1 p s1.next_free_swap h1)
          (h1, omega arith) in
      let w = record (s2.pages p) {
        affiliated = (s2.pages p).affiliated ++ va_to_pte va child ∷ [];
      } in
      let h3 : IsSound cap (put_page s2 p w) = keep-IsSound s2 k.0 p w refl refl in
      both_branches (StaysSound cap s) (v.resident && ppn_of v == 0)
        (make_swap_to_nullpage-IsSound s va child h b) (pte-IsSound (put_page s2 p w) h3 _ _, k.1)

  inherit_all-IsSound :
      (s : Pager Page Files) (child : ℕ) (l : List (ℕ × ℕ))
      → IsSound cap s
      → Maps s.next_page l
      → StaysSound cap s (inherit_all s child l)
  unfolding inherit_all
  inherit_all-IsSound s child [] h n = (h, omega arith)
  inherit_all-IsSound s child ((va, p) ∷ l) h n =
      let t = inherit_page s child va p in
      let k = inherit_page-IsSound s child va p h n.0.0 n.0.1 in
      StaysSound-trans s t _ k
        (inherit_all-IsSound t child l k.0 (Maps-le s.next_page t.next_page l k.1 n.1))

  pub vm_switch-IsSound :
      (s : Pager Page Files) (pid : ℕ) → IsSound cap s → StaysSound cap s (vm_switch s pid)
  unfolding vm_switch
  vm_switch-IsSound s pid h =
      (record { framed = h.framed; mapped = h.mapped; named = h.named }, omega arith)

  pub vm_create-IsSound :
      (s : Pager Page Files) (parent child : ℕ)
      → IsSound cap s
      → StaysSound cap s (vm_create s parent child).0
  unfolding vm_create insert_table start_first inherit_from
  vm_create-IsSound s parent child h =
      let s1 = insert_table s child in
      let h1 : IsSound cap s1 = record { framed = h.framed; mapped = h.mapped; named = h.named } in
      started (inherit_from s1 parent child (s.translate_va parent))
        (inherited s1 (s.translate_va parent) h1 (h.mapped parent))
    where
      started :
          (t : Pager Page Files × Bool)
          → StaysSound cap s t.0
          → StaysSound cap s (start_first t parent child).0
      started (t, false) k = k
      started (t, true) k = elim (Option-cases (t.process_table parent)) [
        | inl e ↦
            rw (start_first, e)
              (record { framed = k.0.framed; mapped = k.0.mapped; named = k.0.named }, k.1)
        | inr (x, e) ↦ rw (start_first, e) k
      ]

      inherited :
          (t : Pager Page Files) (l : Option (List (ℕ × ℕ)))
          → IsSound cap t
          → Maps t.next_page (vas_of l)
          → StaysSound cap t (inherit_from t parent child l).0
      inherited t none k n = (k, omega arith)
      inherited t (some l) k n =
          both_branches (λ (x : Pager Page Files × Bool). StaysSound cap t x.0)
            (ltb (length t.next_free_swap) (swap_needed t.pages l))
            (record { framed = k.framed; mapped = k.mapped; named = k.named }, omega arith)
            (inherit_all-IsSound
              (record t { next_free_va = update t.next_free_va child (t.next_free_va parent) })
              child l (record { framed = k.framed; mapped = k.mapped; named = k.named }) n)

module _ (m : Machine) {cap : ℕ} where
  open m use {Page, Files}

  pub give_back_block-IsSound :
      (s : Pager Page Files) (p : ℕ)
      → IsSound cap s
      → StaysSound cap s (give_back_block m s p (s.pages p))
  unfolding give_back_block
  give_back_block-IsSound s p h = elim (Bool-cases (s.pages p).is_swap) [
    | inl e ↦
        rw (give_back_block, e) (keep-IsSound _ (swap-IsSound s _ h) p _ refl refl, omega arith)
    | inr e ↦ rw (give_back_block, e) (h, omega arith)
  ]

  pub release_page-IsSound :
      (s : Pager Page Files) (va p : ℕ) → IsSound cap s → StaysSound cap s (release_page m s va p)
  unfolding release_page update_ptes_if_any update_ptes
  release_page-IsSound s va p h =
      let s1 = give_back_block m s p (s.pages p) in
      let k1 = give_back_block-IsSound s p h in
      let v1 = s1.pages p in
      let idle = v1.resident && not (ppn_of v1 == 0) && is_empty v1.blocks in
      let s2 = if idle then return_ppn_remove_from_clock m s1 p else s1 in
      let k2 : StaysSound cap s1 s2 = elim (Bool-cases idle) [
        | inl e ↦ rw e (return_ppn-IsSound m s1 p k1.0 (ground arith))
        | inr e ↦ rw e (k1.0, omega arith)
      ] in
      let ptr = va_to_pte va s.current_pid in
      let s3 = check s2 (has_ptr ptr (s2.pages p).affiliated) in
      let w = record (s2.pages p) { affiliated = erase_ptr ptr (s2.pages p).affiliated } in
      let h3 : IsSound cap s3 = pte-IsSound s2 k2.0 s2.process_table s3.aborted in
      let h4 : IsSound cap (put_page s3 p w) = keep-IsSound s3 h3 p w refl refl in
      both_branches (StaysSound cap s) (is_empty w.affiliated) (h4, omega (arith, k1.1, k2.1))
        (pte-IsSound (put_page s3 p w) h4 _ _, omega (arith, k1.1, k2.1))

  release_all-IsSound :
      (s : Pager Page Files) (l : List (ℕ × ℕ))
      → IsSound cap s
      → StaysSound cap s (release_all m s l)
  unfolding release_all
  release_all-IsSound s [] h = (h, omega arith)
  release_all-IsSound s ((va, p) ∷ l) h =
      let t = release_page m s va p in
      let k = release_page-IsSound s va p h in
      StaysSound-trans s t _ k (release_all-IsSound t l k.0)

  pub vm_destroy-IsSound :
      (s : Pager Page Files) → IsSound cap s → StaysSound cap s (vm_destroy m s)
  unfolding vm_destroy
  vm_destroy-IsSound s h =
      let (k, l) = release_all-IsSound s (vas_of (s.translate_va s.current_pid)) h in
      (
        record {
          framed = k.framed;
          mapped = λ pid. elim (Bool-cases (pid == s.current_pid)) [
            | inl e ↦ rw e tt
            | inr e ↦ rw e (k.mapped pid)
          ];
          named = k.named;
        },
        l,
      )
