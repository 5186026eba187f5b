-- ===== src/Threads/Exclusion/Always.antt =====
-- thread_library: runs and who holds a mutex.
use os_from_scratch.Common.{
  ℕ, ◌≡◌, ◌≢◌, refl, List, [], ◌∷◌, Option, none, some, All, false, ◌⊎◌, Bool-cases, inl, inr,
  get_or,
}
use os_from_scratch.Threads.{Context, Kernel, Cpu}
use os_from_scratch.Threads.Locks.{
  Released, already_free, other_owner, released, release_lock, unlock, wait_from, wait,
}
use os_from_scratch.Threads.Life.{timer_interrupt_handler, woken}
use os_from_scratch.Threads.Calls.{
  Call, locks, joins, exits, unlocks, waits, signals, broadcasts, constructs, yields, is_timed,
  is_woken, if_released, if_waiting, perform, performs, IsCaller,
}
use os_from_scratch.Threads.Exclusion.{IsPlain, Exclusive, All-append, update_all}
use os_from_scratch.Threads.Exclusion.Observed.{
  Asked, observe, observes, queued, Accounted, one_inside,
}
use os_from_scratch.Threads.Exclusion.Accounts.{
  lock-Accounted, unlocks-Accounted, waits-Accounted, signal-Accounted, broadcast-Accounted,
  construct_thread-Accounted, join-Accounted, exit_thread-Accounted, yield-Accounted,
  is_timed-Accounted, is_woken-Accounted,
}
use os_from_scratch.Threads.Exclusion.Preserved.{
  suspend_round-Exclusive, switch-Exclusive, lock-Exclusive, release_lock-Exclusive,
  signal-Exclusive, broadcast-Exclusive, construct_thread-Exclusive, join-Exclusive,
  exit_thread-Exclusive, yield-Exclusive,
}

module _ (k : Kernel) (h : Exclusive k) where
  unlocks-Exclusive : (me : Context) (m : ℕ) → me.id ≢ 0 → Exclusive (perform k (unlocks me m))
  unfolding perform unlock if_released
  unlocks-Exclusive me m n = go (release_lock k me m) refl
    where
      go : (r : Released) → release_lock k me m ≡ r → Exclusive (if_released k r)
      go already_free e = h
      go other_owner e = h
      go (released k') e = release_lock-Exclusive k h me m n e

  waits-Exclusive :
      (self : Cpu) (me : Context) (c m : ℕ) → me.id ≢ 0 → Exclusive (perform k (waits self me c m))
  unfolding perform wait if_waiting wait_from
  waits-Exclusive self me c m n = go (release_lock k me m) refl
    where
      go :
          (r : Released)
          → release_lock k me m ≡ r
          → Exclusive (if_waiting k (wait_from r self me c m))
      go already_free e = h
      go other_owner e = h
      go (released k') e =
          let h' = release_lock-Exclusive k h me m n e in
          switch-Exclusive _ self k'.ready_queue refl (record {
            when_free = h'.when_free;
            when_held = h'.when_held;
            waiting = h'.waiting;
            in_cv =
                update_all (λ _ q. All IsPlain q) k'.cvs c _ h'.in_cv
                  (All-append IsPlain (k'.cvs c) _ (h'.in_cv c) ((n, λ j. refl), tt));
            joining = h'.joining;
            threads = h'.threads;
            next_id = h'.next_id;
          })

  is_timed-Exclusive :
      (self : Cpu) (running : Option Context)
      → IsCaller (is_timed self running)
      → Exclusive (timer_interrupt_handler k self running).0
  unfolding timer_interrupt_handler
  is_timed-Exclusive self none n = h
  is_timed-Exclusive self (some me) n = elim (Bool-cases (get_or k.idle self.cpu_num false)) [
    | inl i ↦ rw i h
    | inr i ↦ rw i (yield-Exclusive k h self me n)
  ]

  perform-Exclusive : (call : Call) → IsCaller call → Exclusive (perform k call)
  unfolding perform woken
  perform-Exclusive (locks self me m) n = lock-Exclusive k h self me m n
  perform-Exclusive (joins self me i) n = join-Exclusive k h self me i n
  perform-Exclusive (exits self me i) n = exit_thread-Exclusive k h self me i
  perform-Exclusive (unlocks me m) n = unlocks-Exclusive me m n
  perform-Exclusive (waits self me c m) n = waits-Exclusive self me c m n
  perform-Exclusive (signals c) n = signal-Exclusive k h c
  perform-Exclusive (broadcasts c) n = broadcast-Exclusive k h c
  perform-Exclusive (constructs i) n = construct_thread-Exclusive k h i
  perform-Exclusive (yields self me) n = yield-Exclusive k h self me n
  perform-Exclusive (is_timed self running) n = is_timed-Exclusive self running n
  perform-Exclusive (is_woken self) n = suspend_round-Exclusive k self k.ready_queue refl h

perform-Accounted :
    (k : Kernel) (asked : Asked) (call : Call)
    → Exclusive k
    → Accounted k asked
    → IsCaller call
    → Accounted (perform k call) (observe k asked call)
unfolding perform observe
perform-Accounted k asked (locks self me m) h a n = lock-Accounted k h asked a self me m n
perform-Accounted k asked (joins self me i) h a n = join-Accounted k h asked a self me i
perform-Accounted k asked (exits self me i) h a n = exit_thread-Accounted k h asked a self me i
perform-Accounted k asked (unlocks me m) h a n = unlocks-Accounted k h asked a me m n
perform-Accounted k asked (waits self me c m) h a n = waits-Accounted k h asked a self me c m n
perform-Accounted k asked (signals c) h a n = signal-Accounted k h asked a c
perform-Accounted k asked (broadcasts c) h a n = broadcast-Accounted k h asked a c
perform-Accounted k asked (constructs i) h a n = construct_thread-Accounted k h asked a i
perform-Accounted k asked (yields self me) h a n = yield-Accounted k h asked a self me
perform-Accounted k asked (is_timed self running) h a n =
    is_timed-Accounted k h asked a self running
perform-Accounted k asked (is_woken self) h a n = is_woken-Accounted k h asked a self

performs_both :
    (k : Kernel) (asked : Asked) (calls : List Call)
    → Exclusive k
    → Accounted k asked
    → All IsCaller calls
    → Exclusive (performs k calls) × Accounted (performs k calls) (observes k asked calls)
unfolding performs observes
performs_both k asked [] h a c = (h, a)
performs_both k asked (call ∷ calls) h a c =
    performs_both (perform k call) (observe k asked call) calls (perform-Exclusive k h call c.0)
      (perform-Accounted k asked call h a c.0) c.1

-- From a state in which what follows on counts and holders is so, and in whatever order threads
-- lock, unlock, wait, signal, start, join, yield and end, and CPUs are interrupted: of two
-- different threads, at least one has no call of lock for mutex `m` that it has not released but
-- those it waits with in the mutex's queue, so the other alone is past its lock. What a thread
-- asked for is counted from the calls: one more for a lock, one less for an unlock or a wait that
-- does not throw; it is its places in the queue and the mutex itself, if the thread owns it or has
-- been handed it and not run since. Each mutex is free with nobody waiting for it, or has one
-- holder: its owner, or the one thread that it was handed to. The numbers of the threads and of the
-- callers are not 0.
pub performs-Exclusive :
    (k : Kernel) (asked : Asked) (calls : List Call) (m i j : ℕ)
    → Exclusive k
    → Accounted k asked
    → All IsCaller calls
    → i ≢ 0
    → j ≢ 0
    → i ≢ j
    → ((observes k asked calls m i ≡ queued i ((performs k calls).mutexes m).waiting_queue)
        ⊎ (observes k asked calls m j ≡ queued j ((performs k calls).mutexes m).waiting_queue))
      × Exclusive (performs k calls)
      × Accounted (performs k calls) (observes k asked calls)
performs-Exclusive k asked calls m i j h a c x y n =
    let r = performs_both k asked calls h a c in
    (one_inside (performs k calls) (observes k asked calls) m i j r.0 r.1 x y n, r.0, r.1)
