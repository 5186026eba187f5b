-- ===== src/Threads/Exclusion/Resumed.antt =====
-- thread_library: threads are resumed or ready, and what each thread asked for.
use os_from_scratch.Common.{ℕ, ◌≡◌, ◌⊎◌, inl, inr, subst, List, [], ◌∷◌, All, arith, Bool-cases}
use os_from_scratch.Threads.{
  Resume, starts, owns, relocks, goes_on, Context, Kernel, Cpu, resume_as, resumed, switch,
  suspend_round, check_ready_and_wake, add_to_ready_queue,
}
use os_from_scratch.Threads.Exclusion.{heirs, IsPlain, Exclusive, heirs_plain}
use os_from_scratch.Threads.Exclusion.Observed.{Asked, given, Accounted, given-append, given_plain}

-- A mutex that was handed to a ready thread has no owner.
abbrev pub Handed : Kernel → Type 0
Handed k = (m : ℕ) → ((k.mutexes m).owner ≡ 0) ⊎ (heirs m k.ready_queue ≡ 0)

pub Exclusive-Handed : (k : Kernel) → Exclusive k → Handed k
Exclusive-Handed k h m = elim (Bool-cases (k.mutexes m).free) [
  | inl f ↦ inl (h.when_free m f).0
  | inr f ↦ elim (h.when_held m f) [ inl x ↦ inr x.1 | inr x ↦ inl x.0 ]
]

module _ (k : Kernel) (ready : List Context) (id : ℕ) (asked : Asked) where
  resume_as-Accounted :
      (r : Resume)
      → Handed (record k { ready_queue = record { id = id; resume = r } ∷ ready })
      → Accounted (record k { ready_queue = record { id = id; resume = r } ∷ ready }) asked
      → Accounted (resume_as (record k { ready_queue = ready }) id r) asked
  unfolding resume_as given heirs
  resume_as-Accounted (starts i) h a = λ m j x. ground (arith, a m j x)
  resume_as-Accounted (relocks m) h a = λ q j x. ground (arith, a q j x)
  resume_as-Accounted goes_on h a = λ m j x. ground (arith, a m j x)
  resume_as-Accounted (owns m) h a = λ q j x. ground (arith, a q j x, h q)

pub next-Accounted :
    (k : Kernel) (next : Context) (ready : List Context) (asked : Asked)
    → Handed (record k { ready_queue = next ∷ ready })
    → Accounted (record k { ready_queue = next ∷ ready }) asked
    → Accounted (resumed (record k { ready_queue = ready }) next) asked
unfolding resumed
next-Accounted k next ready asked h a = resume_as-Accounted k ready next.id asked next.resume h a

pub suspend_round-Accounted :
    (k : Kernel) (self : Cpu) (ready : List Context) (asked : Asked)
    → k.ready_queue ≡ ready
    → Handed k
    → Accounted k asked
    → Accounted (suspend_round k self ready).0 asked
unfolding suspend_round
suspend_round-Accounted k self [] asked e h a = a
suspend_round-Accounted k self (next ∷ ready) asked e h a =
    next-Accounted k next ready asked (subst (λ r. Handed (record k { ready_queue = r })) e h)
      (subst (λ r. Accounted (record k { ready_queue = r }) asked) e a)

pub switch-Accounted :
    (k : Kernel) (self : Cpu) (ready : List Context) (asked : Asked)
    → k.ready_queue ≡ ready
    → Handed k
    → Accounted k asked
    → Accounted (switch k self ready).0 asked
unfolding switch
switch-Accounted k self [] asked e h a = suspend_round-Accounted k self [] asked e h a
switch-Accounted k self (next ∷ ready) asked e h a =
    next-Accounted k next ready asked (subst (λ r. Handed (record k { ready_queue = r })) e h)
      (subst (λ r. Accounted (record k { ready_queue = r }) asked) e a)

pub plain-Accounted :
    (k : Kernel) (cs : List Context) (asked : Asked)
    → All IsPlain cs
    → Accounted k asked
    → Accounted (add_to_ready_queue k cs) asked
unfolding add_to_ready_queue check_ready_and_wake
plain-Accounted k cs asked p a = λ m i x.
    ground
      (arith, a m i x, given-append m i k.ready_queue cs, given_plain m i cs (heirs_plain m cs p))
