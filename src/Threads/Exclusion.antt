-- ===== src/Threads/Exclusion.antt =====
-- thread_library: who holds a mutex.
pub mod Observed
pub mod Resumed
pub mod Accounts
pub mod Preserved
pub mod Always
use os_from_scratch.Common.{
  update, ℕ, zero, suc, ◌+◌, ◌≡◌, ◌≢◌, ◌⊎◌, inl, inr, refl, Bool, true, false, List, [], ◌∷◌, ◌++◌,
  ◌==◌, All, arith, sym, subst, ==→≡, if◌then◌else◌, Bool-cases,
}
use os_from_scratch.Threads.{
  Resume, starts, owns, relocks, goes_on, Context, Mutex, Info, Kernel, Cpu, resumed, resume_as,
  switch, suspend_round,
}

-- The context is going to be the owner of mutex `m`.
abbrev pub inherits : ℕ → Resume → ℕ
inherits m (starts _) = 0
inherits m (owns m') = if m == m' then 1 else 0
inherits m (relocks _) = 0
inherits m goes_on = 0

unfoldable pub heirs : ℕ → List Context → ℕ
heirs m [] = 0
heirs m (c ∷ cs) = inherits m c.resume + heirs m cs

-- A thread, which is no mutex's heir. Thread numbers begin at 1.
abbrev pub IsPlain : Context → Type 0
IsPlain c = (c.id ≢ 0) × ((m : ℕ) → inherits m c.resume ≡ 0)

abbrev pub IsThread : Context → Type 0
IsThread c = c.id ≢ 0

-- Mutex `m` is held by its owner, or has just been handed to a thread that is ready.
abbrev pub IsHeld : ℕ → Mutex → List Context → Type 0
IsHeld m mutex ready =
    ((mutex.owner ≢ 0) × (heirs m ready ≡ 0)) ⊎ ((mutex.owner ≡ 0) × (heirs m ready ≡ 1))

-- The threads in a mutex's queue are its heirs.
abbrev pub WaitsFor : ℕ → Mutex → Type 0
WaitsFor m mutex = All (λ c. (c.id ≢ 0) × (c.resume ≡ owns m)) mutex.waiting_queue

-- A free mutex has no holder and nobody waits for it; one that is not free has exactly one holder.
-- Only a mutex's own queue has threads that become its owner.
pub record IsExclusive (ready : List Context) (mutexes : ℕ → Mutex) (cvs : ℕ → List Context)
    (infos : ℕ → Info) (max_id : ℕ) : Type 0 where
  pub when_free :
      (m : ℕ)
      → (mutexes m).free ≡ true
      → ((mutexes m).owner ≡ 0) × (heirs m ready ≡ 0) × ((mutexes m).waiting_queue ≡ [])
  pub when_held : (m : ℕ) → (mutexes m).free ≡ false → IsHeld m (mutexes m) ready
  pub waiting : (m : ℕ) → WaitsFor m (mutexes m)
  pub in_cv : (c : ℕ) → All IsPlain (cvs c)
  pub joining : (i : ℕ) → All IsPlain (infos i).join_waiting_queue
  pub threads : All IsThread ready
  pub next_id : max_id ≢ 0

abbrev pub Exclusive : Kernel → Type 0
Exclusive k = IsExclusive k.ready_queue k.mutexes k.cvs k.infos k.max_id

pub heirs-append : (m : ℕ) (xs ys : List Context) → heirs m (xs ++ ys) ≡ heirs m xs + heirs m ys
unfolding heirs
heirs-append m [] ys = omega arith
heirs-append m (x ∷ xs) ys = omega (arith, heirs-append m xs ys)

pub heirs_plain : (m : ℕ) (xs : List Context) → All IsPlain xs → heirs m xs ≡ 0
unfolding heirs
heirs_plain m [] h = refl
heirs_plain m (x ∷ xs) h = omega (arith, h.0.1 m, heirs_plain m xs h.1)

pub threads_plain : (xs : List Context) → All IsPlain xs → All IsThread xs
threads_plain [] h = tt
threads_plain (x ∷ xs) h = (h.0.0, threads_plain xs h.1)

pub All-append :
    (P : Context → Type 0) (xs ys : List Context) → All P xs → All P ys → All P (xs ++ ys)
All-append P [] ys h k = k
All-append P (x ∷ xs) ys h k = (h.0, All-append P xs ys h.1 k)

-- What holds of every object holds after one is changed.
pub update_all :
    {A : Type 0} (P : ℕ → A → Type 0) (f : ℕ → A) (i : ℕ) (x : A)
    → ((j : ℕ) → P j (f j))
    → P i x
    → (j : ℕ) → P j (update f i x j)
update_all P f i x h p j = elim (Bool-cases (j == i)) [
  | inl e ↦ rw e (subst (λ n. P n x) (sym (==→≡ j i e)) p)
  | inr e ↦ rw e (h j)
]

module _ (k : Kernel) (ready : List Context) (id : ℕ) (n : id ≢ 0) where
  -- A ready thread is resumed.
  pub resume_as-Exclusive :
      (r : Resume)
      → Exclusive (record k { ready_queue = record { id = id; resume = r } ∷ ready })
      → Exclusive (resume_as (record k { ready_queue = ready }) id r)
  unfolding resume_as heirs
  resume_as-Exclusive (starts i) h = record {
    when_free = λ q f. ground (arith, h.when_free q f);
    when_held = λ q f. ground (arith, h.when_held q f);
    waiting = h.waiting;
    in_cv = h.in_cv;
    joining = h.joining;
    threads = h.threads.1;
    next_id = h.next_id;
  }
  resume_as-Exclusive (relocks m) h = record {
    when_free = λ q f. ground (arith, h.when_free q f);
    when_held = λ q f. ground (arith, h.when_held q f);
    waiting = h.waiting;
    in_cv = h.in_cv;
    joining = h.joining;
    threads = h.threads.1;
    next_id = h.next_id;
  }
  resume_as-Exclusive goes_on h = record {
    when_free = λ q f. ground (arith, h.when_free q f);
    when_held = λ q f. ground (arith, h.when_held q f);
    waiting = h.waiting;
    in_cv = h.in_cv;
    joining = h.joining;
    threads = h.threads.1;
    next_id = h.next_id;
  }
  resume_as-Exclusive (owns m) h = record {
    when_free = λ q f. ground (arith, h.when_free q);
    when_held = λ q f. ground (arith, h.when_held q);
    waiting = update_all WaitsFor k.mutexes m _ h.waiting (h.waiting m);
    in_cv = h.in_cv;
    joining = h.joining;
    threads = h.threads.1;
    next_id = h.next_id;
  }
