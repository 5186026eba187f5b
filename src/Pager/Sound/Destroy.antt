-- ===== src/Pager/Sound/Destroy.antt =====
-- vm_pager.cpp, vm_destroy: a page that loses its last block gives its frame back.
use os_from_scratch.Common.{
  ℕ, ◌≡◌, ◌≢◌, ◌⊎◌, inl, inr, refl, Bool, true, false, not, ◌&&◌, List, [], ◌∷◌, ◌==◌,
  if◌then◌else◌, update, arith, Bool-cases, Option-cases, both_branches, subst, sym, ==→≡,
}
use os_from_scratch.Pager.{VirtualPage, Machine, Pager, vas_of, put_page, va_to_pte, is_empty}
use os_from_scratch.Pager.Ptes.{update_ptes, update_ptes_if_any}
use os_from_scratch.Pager.Clock.{return_frame, return_ppn_remove_from_clock}
use os_from_scratch.Pager.Fault.{ppn_of, erase_ptr}
use os_from_scratch.Pager.Process.{give_back_block, release_page, release_all, vm_destroy}
use os_from_scratch.Pager.Frames.Replace.{evicted}
use os_from_scratch.Pager.Sound.{IsSound}
use os_from_scratch.Pager.Sound.Process.{give_back_block-IsSound, release_page-IsSound}

-- A page that is in a frame has a block.
abbrev pub HasBlock : VirtualPage → Type 0
HasBlock v = ppn_of v ≢ 0 → is_empty v.blocks ≡ false

abbrev pub HaveBlocks : {Page Files : Type 0} → Pager Page Files → Type 0
HaveBlocks s = (q : ℕ) → HasBlock (s.pages q)

module _ (m : Machine) where
  open m use {Page, Files}

  return_pages :
      (s : Pager Page Files) (p : ℕ)
      → ppn_of (s.pages p) ≢ 0
      → (return_ppn_remove_from_clock m s p).pages ≡ update s.pages p (evicted (s.pages p))
  unfolding return_ppn_remove_from_clock return_frame update_ptes
  return_pages s p n = elim (Option-cases (s.pages p).physical_page) [
    | inl e ↦ absurd (ground arith)
    | inr (f, e) ↦ rw (return_ppn_remove_from_clock, e) refl
  ]

  give_back_pages :
      (s : Pager Page Files) (p q : ℕ)
      → q ≢ p
      → (give_back_block m s p (s.pages p)).pages q ≡ s.pages q
  unfolding give_back_block
  give_back_pages s p q n = ground arith

  -- Once its block has gone back, the page keeps its frame only if it has another.
  abbrev is_idle : VirtualPage → Bool
  is_idle v = v.resident && not (ppn_of v == 0) && is_empty v.blocks

  idle_returned-HasBlock :
      {cap : ℕ} (s : Pager Page Files) (p q : ℕ)
      → IsSound cap s
      → (q ≢ p → HasBlock (s.pages q))
      → HasBlock ((if is_idle (s.pages p) then return_ppn_remove_from_clock m s p else s).pages q)
  idle_returned-HasBlock s p q h k = elim (Bool-cases (is_idle (s.pages p))) [
    | inl e ↦ rw e (
        subst (λ (x : ℕ → VirtualPage). HasBlock (x q)) (sym (return_pages s p (ground arith)))
          (λ n. ground (arith, k, n)))
    | inr e ↦ rw e (elim (Bool-cases (q == p)) [
      | inl y ↦
          subst (λ x. HasBlock (s.pages x)) (sym (==→≡ q p y))
            (λ n. ground (arith, n, e, h.framed.resident_iff p))
      | inr y ↦ k (ground arith)
    ])
  ]

  release_page-HasBlock :
      {cap : ℕ} (s : Pager Page Files) (va p q : ℕ)
      → IsSound cap s
      → HasBlock (s.pages q)
      → HasBlock ((release_page m s va p).pages q)
  unfolding release_page update_ptes_if_any update_ptes
  release_page-HasBlock s va p q h k =
      let s1 = give_back_block m s p (s.pages p) in
      let k2 =
        idle_returned-HasBlock s1 p q (give_back_block-IsSound m s p h).0
          (λ n. subst HasBlock (sym (give_back_pages s p q n)) k) in
      let s2 = if is_idle (s1.pages p) then return_ppn_remove_from_clock m s1 p else s1 in
      let ptr = va_to_pte va s.current_pid in
      let w = record (s2.pages p) { affiliated = erase_ptr ptr (s2.pages p).affiliated } in
      let k3 : HasBlock ((put_page s2 p w).pages q) = elim (Bool-cases (q == p)) [
        | inl y ↦ rw y (subst (λ x. HasBlock (s2.pages x)) (==→≡ q p y) k2)
        | inr y ↦ rw y k2
      ] in
      both_branches (λ (t : Pager Page Files). HasBlock (t.pages q)) (is_empty w.affiliated) k3 k3

  release_all-HasBlock :
      {cap : ℕ} (s : Pager Page Files) (l : List (ℕ × ℕ)) (q : ℕ)
      → IsSound cap s
      → HasBlock (s.pages q)
      → HasBlock ((release_all m s l).pages q)
  unfolding release_all
  release_all-HasBlock s [] q h k = k
  release_all-HasBlock s ((va, p) ∷ l) q h k =
      release_all-HasBlock (release_page m s va p) l q (release_page-IsSound m s va p h).0
        (release_page-HasBlock s va p q h k)

  -- A page that has a block before a process ends, or no frame, keeps a frame only with a block.
  pub vm_destroy-HasBlock :
      {cap : ℕ} (s : Pager Page Files) (q : ℕ)
      → IsSound cap s
      → HasBlock (s.pages q)
      → HasBlock ((vm_destroy m s).pages q)
  unfolding vm_destroy
  vm_destroy-HasBlock s q h k = release_all-HasBlock s (vas_of (s.translate_va s.current_pid)) q h k

  -- What the end of the current process leaves of a page: no frame, or a block, if it had one.
  abbrev pub IsReturned : Pager Page Files → ℕ → Type 0
  IsReturned s q =
      (ppn_of ((vm_destroy m s).pages q) ≡ 0)
      ⊎ ((is_empty ((vm_destroy m s).pages q).blocks ≡ false)
          ⊎ (is_empty (s.pages q).blocks ≡ true))

  pub destroyed-IsReturned :
      {cap : ℕ} (s : Pager Page Files) (q : ℕ) → IsSound cap s → IsReturned s q
  destroyed-IsReturned s q h = elim (Bool-cases (is_empty (s.pages q).blocks)) [
    | inl e ↦ inr (inr e)
    | inr e ↦
        let k = vm_destroy-HasBlock s q h (λ n. e) in
        elim (Bool-cases (ppn_of ((vm_destroy m s).pages q) == 0)) [
          | inl y ↦ inl (==→≡ (ppn_of ((vm_destroy m s).pages q)) 0 y)
          | inr y ↦ inr (inl (k (ground (arith, y))))
        ]
  ]
