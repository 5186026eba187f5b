-- ===== src/Threads/Exclusion/Accounts.antt =====
-- thread_library: the calls, and what each thread asked for.
use os_from_scratch.Common.{
  update, ℕ, ◌-◌, ◌≡◌, ◌≢◌, inl, inr, refl, subst, ==→≡, false, List, [], ◌∷◌, ◌++◌, ◌==◌, All,
  Option, none, some, arith, if◌then◌else◌, Bool-cases, get_or,
}
use os_from_scratch.Threads.{
  owns, goes_on, Context, Kernel, Cpu, switch, check_ready_and_wake, add_to_ready_queue,
}
use os_from_scratch.Threads.Locks.{
  Released, already_free, other_owner, released, lock, hand_over, release_lock, unlock, wait_from,
  wait, signal_first, signal, broadcast,
}
use os_from_scratch.Threads.Life.{
  construct_thread, join, yield_to, yield, timer_interrupt_handler, exit_thread, woken,
}
use os_from_scratch.Threads.Calls.{locks, unlocks, waits, if_released, if_waiting, perform}
use os_from_scratch.Threads.Exclusion.{
  inherits, heirs, IsPlain, Exclusive, heirs-append, heirs_plain,
}
use os_from_scratch.Threads.Exclusion.Observed.{
  Asked, lets_go, observe, queued, given, Accounted, queued-append, given-append, given_plain,
}
use os_from_scratch.Threads.Exclusion.Resumed.{
  Handed, Exclusive-Handed, next-Accounted, suspend_round-Accounted, switch-Accounted,
  plain-Accounted,
}
use os_from_scratch.Threads.Exclusion.Preserved.{release_lock-Exclusive}

module _ (k : Kernel) (h : Exclusive k) (asked : Asked) (a : Accounted k asked) where
  pub lock-Accounted :
      (self : Cpu) (me : Context) (m : ℕ)
      → me.id ≢ 0
      → Accounted (lock k self me m).0 (observe k asked (locks self me m))
  unfolding lock observe queued
  lock-Accounted self me m n = elim (Bool-cases (k.mutexes m).free) [
    | inl f ↦ rw f (λ q i x. ground (arith, a q i x, h.when_free m f))
    | inr f ↦ rw f (
        switch-Accounted _ self k.ready_queue _ refl (λ q. ground (arith, Exclusive-Handed k h q))
          (λ q i x. ground (
            arith,
            a q i x,
            queued-append i (k.mutexes m).waiting_queue (record me { resume = owns m } ∷ []),
          )))
  ]

  hand_over-Accounted :
      (me : Context) (m : ℕ) (waiting : List Context)
      → (k.mutexes m).waiting_queue ≡ waiting
      → (k.mutexes m).free ≡ false
      → me.id ≡ (k.mutexes m).owner
      → me.id ≢ 0
      → Accounted
          (hand_over k m waiting)
          (update asked m (update (asked m) me.id (asked m me.id - 1)))
  unfolding hand_over add_to_ready_queue check_ready_and_wake given queued
  hand_over-Accounted me m [] e f o n = λ q i x. ground (arith, a q i x)
  hand_over-Accounted me m (next ∷ waiting) e f o n =
      let queue = subst (All (λ c. (c.id ≢ 0) × (c.resume ≡ owns m))) e (h.waiting m) in
      let heir : (q : ℕ) → inherits q next.resume ≡ (if q == m then 1 else 0) =
        λ q. rw queue.0.1 refl in
      λ q i x. ground (arith, a q i x, heir q, e, given-append q i k.ready_queue (next ∷ []))

  pub release_lock-Accounted :
      (me : Context) (m : ℕ) (k' : Kernel)
      → me.id ≢ 0
      → release_lock k me m ≡ released k'
      → Accounted k' (update asked m (update (asked m) me.id (asked m me.id - 1)))
  unfolding release_lock
  release_lock-Accounted me m k' n e = elim (Bool-cases (k.mutexes m).free) [
    | inl f ↦ absurd (ground arith)
    | inr f ↦ elim (Bool-cases (me.id == (k.mutexes m).owner)) [
      | inl own ↦
          let done : hand_over k m (k.mutexes m).waiting_queue ≡ k' = ground arith in
          subst (λ x. Accounted x (update asked m (update (asked m) me.id (asked m me.id - 1))))
            done (hand_over-Accounted me m (k.mutexes m).waiting_queue refl f (==→≡ me.id _ own) n)
      | inr other ↦ absurd (ground arith)
    ]
  ]

  pub signal-Accounted : (c : ℕ) → Accounted (signal k c) asked
  unfolding signal signal_first
  signal-Accounted c = first (k.cvs c) refl
    where
      first : (queue : List Context) → k.cvs c ≡ queue → Accounted (signal_first k c queue) asked
      first [] e = a
      first (next ∷ queue) e =
          let plain = subst (All IsPlain) e (h.in_cv c) in
          plain-Accounted (record k { cvs = update k.cvs c queue }) (next ∷ []) asked (plain.0, tt)
            a

  pub broadcast-Accounted : (c : ℕ) → Accounted (broadcast k c) asked
  unfolding broadcast
  broadcast-Accounted c =
      plain-Accounted (record k { cvs = update k.cvs c [] }) (k.cvs c) asked (h.in_cv c) a

  pub construct_thread-Accounted : (i : ℕ) → Accounted (construct_thread k i) asked
  unfolding construct_thread
  construct_thread-Accounted i = plain-Accounted _ _ asked ((h.next_id, λ m. refl), tt) a

  pub join-Accounted : (self : Cpu) (me : Context) (i : ℕ) → Accounted (join k self me i).0 asked
  unfolding join
  join-Accounted self me i = elim (Bool-cases (k.infos i).alive) [
    | inl b ↦ rw b (switch-Accounted _ self k.ready_queue asked refl (Exclusive-Handed k h) a)
    | inr b ↦ rw b a
  ]

  pub exit_thread-Accounted :
      (self : Cpu) (me : Context) (i : ℕ) → Accounted (exit_thread k self me i).0 asked
  unfolding exit_thread add_to_ready_queue check_ready_and_wake
  exit_thread-Accounted self me i =
      let cs = (k.infos i).join_waiting_queue in
      switch-Accounted _ _ _ asked refl
        (λ m. ground (
          arith,
          Exclusive-Handed k h m,
          heirs-append m k.ready_queue cs,
          heirs_plain m cs (h.joining i),
        ))
        (λ m j x. ground (
          arith,
          a m j x,
          given-append m j k.ready_queue cs,
          given_plain m j cs (heirs_plain m cs (h.joining i)),
        ))

  pub yield-Accounted : (self : Cpu) (me : Context) → Accounted (yield k self me).0 asked
  unfolding yield yield_to switch given heirs
  yield-Accounted self me = to k.ready_queue refl
    where
      to :
          (ready : List Context)
          → k.ready_queue ≡ ready
          → Accounted (yield_to k self me ready).0 asked
      to [] e = a
      to (next ∷ ready) e =
          let back = record me { resume = goes_on } ∷ [] in
          let hq = subst (λ r. Handed (record k { ready_queue = r })) e (Exclusive-Handed k h) in
          let aq = subst (λ r. Accounted (record k { ready_queue = r }) asked) e a in
          next-Accounted k next (ready ++ back) asked
            (λ m. ground (arith, hq m, heirs-append m ready back))
            (λ m i x. ground (arith, aq m i x, given-append m i ready back))

  pub is_woken-Accounted : (self : Cpu) → Accounted (woken k self).0 asked
  unfolding woken
  is_woken-Accounted self =
      suspend_round-Accounted k self k.ready_queue asked refl (Exclusive-Handed k h) a

  pub is_timed-Accounted :
      (self : Cpu) (running : Option Context)
      → Accounted (timer_interrupt_handler k self running).0 asked
  unfolding timer_interrupt_handler
  is_timed-Accounted self none = a
  is_timed-Accounted self (some me) = elim (Bool-cases (get_or k.idle self.cpu_num false)) [
    | inl i ↦ rw i a
    | inr i ↦ rw i (yield-Accounted self me)
  ]

  pub unlocks-Accounted :
      (me : Context) (m : ℕ)
      → me.id ≢ 0
      → Accounted (perform k (unlocks me m)) (observe k asked (unlocks me m))
  unfolding perform unlock if_released observe lets_go
  unlocks-Accounted me m n = go (release_lock k me m) refl
    where
      go :
          (r : Released)
          → release_lock k me m ≡ r
          → Accounted (if_released k r) (lets_go asked m me.id r)
      go already_free e = a
      go other_owner e = a
      go (released k') e = release_lock-Accounted me m k' n e

  pub waits-Accounted :
      (self : Cpu) (me : Context) (c m : ℕ)
      → me.id ≢ 0
      → Accounted (perform k (waits self me c m)) (observe k asked (waits self me c m))
  unfolding perform wait if_waiting wait_from observe lets_go
  waits-Accounted self me c m n = go (release_lock k me m) refl
    where
      go :
          (r : Released)
          → release_lock k me m ≡ r
          → Accounted (if_waiting k (wait_from r self me c m)) (lets_go asked m me.id r)
      go already_free e = a
      go other_owner e = a
      go (released k') e =
          switch-Accounted _ self k'.ready_queue _ refl
            (Exclusive-Handed k' (release_lock-Exclusive k h me m n e))
            (release_lock-Accounted me m k' n e)
