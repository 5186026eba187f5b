-- ===== src/Pager/Sound/Calls.antt =====
-- vm_pager.cpp: any run of calls, from vm_init on.
use os_from_scratch.Common.{
  ℕ, zero, suc, ◌+◌, ◌-◌, ◌≤◌, ◌≡◌, refl, true, ◌&&◌, List, [], ◌∷◌, ltb, leb, length, arith,
}
use os_from_scratch.Pager.{Machine, Pager}
use os_from_scratch.Pager.Clock.{is_queued}
use os_from_scratch.Pager.Process.{count_up, vm_init}
use os_from_scratch.Pager.Calls.{
  Call, create, switch, map, fault, destroy, store, change_files, unstarted, perform, perform_all,
  run,
}
use os_from_scratch.Pager.Frames.{distinct}
use os_from_scratch.Pager.Sound.{IsSound}
use os_from_scratch.Pager.Sound.Fault.{vm_fault-IsSound}
use os_from_scratch.Pager.Sound.Map.{vm_map-IsSound}
use os_from_scratch.Pager.Sound.Process.{vm_create-IsSound, vm_switch-IsSound, vm_destroy-IsSound}

is_queued-count_up : (x n i : ℕ) → is_queued x (count_up n i) ≡ (leb i x && ltb x (i + n))
unfolding is_queued count_up
is_queued-count_up x zero i = ground arith
is_queued-count_up x (suc n) i = ground (arith, is_queued-count_up x n (suc i))

distinct-count_up : (n i : ℕ) → distinct (count_up n i) ≡ true
unfolding distinct count_up
distinct-count_up zero i = refl
distinct-count_up (suc n) i =
    ground (arith, distinct-count_up n (suc i), is_queued-count_up i n (suc i))

length-count_up : (n i : ℕ) → length (count_up n i) ≡ n
unfolding count_up
length-count_up zero i = refl
length-count_up (suc n) i = omega (arith, length-count_up n (suc i))

module _ (m : Machine) where
  open m use {Page, Files}

  vm_init-IsSound :
      (memory : ℕ → Page) (files : Files) (memory_pages swap_blocks : ℕ)
      → 1 ≤ memory_pages
      → IsSound memory_pages (vm_init m (unstarted m memory files) memory_pages swap_blocks)
  unfolding vm_init unstarted is_queued distinct
  vm_init-IsSound memory files memory_pages swap_blocks c = record {
    framed = record {
      frames = record {
        queued_iff = λ p. refl;
        once = refl;
        unshared = λ p q z. absurd (z refl);
        bounded = λ p. omega arith;
        free_bounded = λ x. ground (arith, is_queued-count_up x (memory_pages - 1) 1);
        unheld = λ x p. ground (arith, is_queued-count_up x (memory_pages - 1) 1);
        free_once = distinct-count_up (memory_pages - 1) 1;
        counted = omega (arith, length-count_up (memory_pages - 1) 1);
        fresh = λ p l. refl;
      };
      resident_iff = λ p. refl;
    };
    mapped = λ pid. tt;
    named = λ name block y. absurd (ground arith);
  }

  module _ {cap : ℕ} (c : 2 ≤ cap) where
    perform-IsSound :
        (s : Pager Page Files) (call : Call Page Files)
        → IsSound cap s
        → IsSound cap (perform m s call)
    unfolding perform
    perform-IsSound s (create parent child) h = (vm_create-IsSound s parent child h).0
    perform-IsSound s (switch pid) h = (vm_switch-IsSound s pid h).0
    perform-IsSound s (map their_filename block) h = (vm_map-IsSound m c s their_filename block h).0
    perform-IsSound s (fault addr write_flag) h = (vm_fault-IsSound m s addr write_flag h c).0
    perform-IsSound s destroy h = (vm_destroy-IsSound m s h).0
    perform-IsSound s (change_files files) h = record {
      framed = h.framed;
      mapped = h.mapped;
      named = h.named;
    }
    perform-IsSound s (store ppn content) h = record {
      framed = h.framed;
      mapped = h.mapped;
      named = h.named;
    }

    pub perform_all-IsSound :
        (calls : List (Call Page Files)) (s : Pager Page Files)
        → IsSound cap s
        → IsSound cap (perform_all m s calls)
    unfolding perform_all
    perform_all-IsSound [] s h = h
    perform_all-IsSound (call ∷ calls) s h =
        perform_all-IsSound calls (perform m s call) (perform-IsSound s call h)

  pub calls-IsSound :
      (memory : ℕ → Page) (files : Files) (memory_pages swap_blocks : ℕ)
      (calls : List (Call Page Files))
      → 2 ≤ memory_pages
      → IsSound memory_pages (run m memory files memory_pages swap_blocks calls)
  unfolding run
  calls-IsSound memory files memory_pages swap_blocks calls c =
      perform_all-IsSound c calls (vm_init m (unstarted m memory files) memory_pages swap_blocks)
        (vm_init-IsSound memory files memory_pages swap_blocks (omega arith))
