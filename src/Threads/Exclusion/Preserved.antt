-- ===== src/Threads/Exclusion/Preserved.antt =====
-- thread_library: the calls and who holds a mutex.
use os_from_scratch.Common.{
  update, ℕ, ◌≡◌, ◌≢◌, inl, inr, refl, subst, false, List, [], ◌∷◌, ◌++◌, ◌==◌, All, arith,
  if◌then◌else◌, Bool-cases,
}
use os_from_scratch.Threads.{
  owns, goes_on, Context, Kernel, Cpu, resumed, switch, suspend_round, check_ready_and_wake,
  add_to_ready_queue,
}
use os_from_scratch.Threads.Locks.{
  released, lock, hand_over, release_lock, signal_first, signal, broadcast,
}
use os_from_scratch.Threads.Life.{construct_thread, join, yield_to, yield, exit_thread}
use os_from_scratch.Threads.Exclusion.{
  heirs, inherits, IsPlain, IsThread, Exclusive, heirs-append, heirs_plain, threads_plain,
  All-append, update_all, WaitsFor, resume_as-Exclusive,
}

next-Exclusive :
    (k : Kernel) (next : Context) (ready : List Context)
    → Exclusive (record k { ready_queue = next ∷ ready })
    → Exclusive (resumed (record k { ready_queue = ready }) next)
unfolding resumed
next-Exclusive k next ready h = resume_as-Exclusive k ready next.id h.threads.0 next.resume h

pub suspend_round-Exclusive :
    (k : Kernel) (self : Cpu) (ready : List Context)
    → k.ready_queue ≡ ready
    → Exclusive k
    → Exclusive (suspend_round k self ready).0
unfolding suspend_round
suspend_round-Exclusive k self [] e h = h
suspend_round-Exclusive k self (next ∷ ready) e h =
    next-Exclusive k next ready (subst (λ r. Exclusive (record k { ready_queue = r })) e h)

pub switch-Exclusive :
    (k : Kernel) (self : Cpu) (ready : List Context)
    → k.ready_queue ≡ ready
    → Exclusive k
    → Exclusive (switch k self ready).0
unfolding switch
switch-Exclusive k self [] e h = suspend_round-Exclusive k self [] e h
switch-Exclusive k self (next ∷ ready) e h =
    next-Exclusive k next ready (subst (λ r. Exclusive (record k { ready_queue = r })) e h)

-- Threads that are no heirs become ready.
plain-Exclusive :
    (k : Kernel) (cs : List Context)
    → All IsPlain cs
    → Exclusive k
    → Exclusive (add_to_ready_queue k cs)
unfolding add_to_ready_queue check_ready_and_wake
plain-Exclusive k cs p h = record {
  when_free =
      λ m f. ground (arith, h.when_free m f, heirs-append m k.ready_queue cs, heirs_plain m cs p);
  when_held =
      λ m f. ground (arith, h.when_held m f, heirs-append m k.ready_queue cs, heirs_plain m cs p);
  waiting = h.waiting;
  in_cv = h.in_cv;
  joining = h.joining;
  threads = All-append IsThread k.ready_queue cs h.threads (threads_plain cs p);
  next_id = h.next_id;
}

module _ (k : Kernel) (h : Exclusive k) where
  pub lock-Exclusive :
      (self : Cpu) (me : Context) (m : ℕ) → me.id ≢ 0 → Exclusive (lock k self me m).0
  unfolding lock
  lock-Exclusive self me m n = elim (Bool-cases (k.mutexes m).free) [
    | inl f ↦ rw f (record {
      when_free = λ q g. ground (arith, h.when_free q);
      when_held = λ q g. ground (arith, h.when_held q, h.when_free m f);
      waiting = update_all WaitsFor k.mutexes m _ h.waiting (h.waiting m);
      in_cv = h.in_cv;
      joining = h.joining;
      threads = h.threads;
      next_id = h.next_id;
    })
    | inr f ↦ rw f (
        switch-Exclusive _ self k.ready_queue refl (record {
          when_free = λ q g. ground (arith, h.when_free q);
          when_held = λ q g. ground (arith, h.when_held q);
          waiting = update_all WaitsFor k.mutexes m _ h.waiting (
              All-append (λ c. (c.id ≢ 0) × (c.resume ≡ owns m)) (k.mutexes m).waiting_queue _
                (h.waiting m) ((n, refl), tt));
          in_cv = h.in_cv;
          joining = h.joining;
          threads = h.threads;
          next_id = h.next_id;
        }))
  ]

  hand_over-Exclusive :
      (m : ℕ) (waiting : List Context)
      → (k.mutexes m).waiting_queue ≡ waiting
      → (k.mutexes m).free ≡ false
      → (k.mutexes m).owner ≢ 0
      → Exclusive (hand_over k m waiting)
  unfolding hand_over add_to_ready_queue check_ready_and_wake heirs
  hand_over-Exclusive m [] e f n = record {
    when_free = λ q g. ground (arith, h.when_free q, h.when_held m f);
    when_held = λ q g. ground (arith, h.when_held q);
    waiting = update_all WaitsFor k.mutexes m _ h.waiting (h.waiting m);
    in_cv = h.in_cv;
    joining = h.joining;
    threads = h.threads;
    next_id = h.next_id;
  }
  hand_over-Exclusive m (next ∷ waiting) e f n =
      let queue = subst (All (λ c. (c.id ≢ 0) × (c.resume ≡ owns m))) e (h.waiting m) in
      let heir : (q : ℕ) → inherits q next.resume ≡ (if q == m then 1 else 0) =
        λ q. rw queue.0.1 refl in
      record {
        when_free =
            λ q g. ground (arith, h.when_free q, heir q, heirs-append q k.ready_queue (next ∷ []));
        when_held =
            λ q g. ground (arith, h.when_held q, heir q, heirs-append q k.ready_queue (next ∷ []));
        waiting = update_all WaitsFor k.mutexes m _ h.waiting queue.1;
        in_cv = h.in_cv;
        joining = h.joining;
        threads = All-append IsThread k.ready_queue (next ∷ []) h.threads (queue.0.0, tt);
        next_id = h.next_id;
      }

  pub release_lock-Exclusive :
      (me : Context) (m : ℕ) {k' : Kernel}
      → me.id ≢ 0
      → release_lock k me m ≡ released k'
      → Exclusive k'
  unfolding release_lock
  release_lock-Exclusive me m {k'} n e = elim (Bool-cases (k.mutexes m).free) [
    | inl f ↦ absurd (ground arith)
    | inr f ↦ elim (Bool-cases (me.id == (k.mutexes m).owner)) [
      | inl own ↦
          let done : hand_over k m (k.mutexes m).waiting_queue ≡ k' = ground arith in
          subst Exclusive done
            (hand_over-Exclusive m (k.mutexes m).waiting_queue refl f (ground arith))
      | inr other ↦ absurd (ground arith)
    ]
  ]

  pub signal-Exclusive : (c : ℕ) → Exclusive (signal k c)
  unfolding signal signal_first
  signal-Exclusive c = first (k.cvs c) refl
    where
      first : (queue : List Context) → k.cvs c ≡ queue → Exclusive (signal_first k c queue)
      first [] e = h
      first (next ∷ queue) e =
          let plain = subst (All IsPlain) e (h.in_cv c) in
          plain-Exclusive (record k { cvs = update k.cvs c queue }) (next ∷ []) (plain.0, tt)
            (record {
              when_free = h.when_free;
              when_held = h.when_held;
              waiting = h.waiting;
              in_cv = update_all (λ _ q. All IsPlain q) k.cvs c queue h.in_cv plain.1;
              joining = h.joining;
              threads = h.threads;
              next_id = h.next_id;
            })

  pub broadcast-Exclusive : (c : ℕ) → Exclusive (broadcast k c)
  unfolding broadcast
  broadcast-Exclusive c =
      plain-Exclusive (record k { cvs = update k.cvs c [] }) (k.cvs c) (h.in_cv c)
        (record {
          when_free = h.when_free;
          when_held = h.when_held;
          waiting = h.waiting;
          in_cv = update_all (λ _ q. All IsPlain q) k.cvs c [] h.in_cv tt;
          joining = h.joining;
          threads = h.threads;
          next_id = h.next_id;
        })

  pub construct_thread-Exclusive : (i : ℕ) → Exclusive (construct_thread k i)
  unfolding construct_thread
  construct_thread-Exclusive i =
      plain-Exclusive _ _ ((h.next_id, λ m. refl), tt)
        (record {
          when_free = h.when_free;
          when_held = h.when_held;
          waiting = h.waiting;
          in_cv = h.in_cv;
          joining = update_all (λ _ t. All IsPlain t.join_waiting_queue) k.infos i _ h.joining tt;
          threads = h.threads;
          next_id = λ e. omega arith;
        })

  pub join-Exclusive :
      (self : Cpu) (me : Context) (i : ℕ) → me.id ≢ 0 → Exclusive (join k self me i).0
  unfolding join
  join-Exclusive self me i n = elim (Bool-cases (k.infos i).alive) [
    | inl a ↦ rw a (
        switch-Exclusive _ self k.ready_queue refl (record {
          when_free = h.when_free;
          when_held = h.when_held;
          waiting = h.waiting;
          in_cv = h.in_cv;
          joining =
              update_all (λ _ t. All IsPlain t.join_waiting_queue) k.infos i _ h.joining
                (All-append IsPlain (k.infos i).join_waiting_queue _ (h.joining i)
                  ((n, λ m. refl), tt));
          threads = h.threads;
          next_id = h.next_id;
        }))
    | inr a ↦ rw a h
  ]

  pub exit_thread-Exclusive :
      (self : Cpu) (me : Context) (i : ℕ) → Exclusive (exit_thread k self me i).0
  unfolding exit_thread
  exit_thread-Exclusive self me i = switch-Exclusive _ _ _ refl (
      plain-Exclusive _ (k.infos i).join_waiting_queue (h.joining i) (record {
        when_free = h.when_free;
        when_held = h.when_held;
        waiting = h.waiting;
        in_cv = h.in_cv;
        joining = update_all (λ _ t. All IsPlain t.join_waiting_queue) k.infos i _ h.joining tt;
        threads = h.threads;
        next_id = h.next_id;
      }))

  pub yield-Exclusive : (self : Cpu) (me : Context) → me.id ≢ 0 → Exclusive (yield k self me).0
  unfolding yield yield_to switch heirs
  yield-Exclusive self me n = to k.ready_queue refl
    where
      to : (ready : List Context) → k.ready_queue ≡ ready → Exclusive (yield_to k self me ready).0
      to [] e = h
      to (next ∷ ready) e =
          let h' = subst (λ r. Exclusive (record k { ready_queue = r })) e h in
          next-Exclusive k next (ready ++ record me { resume = goes_on } ∷ []) (record {
            when_free = λ m f. ground (
              arith,
              h'.when_free m f,
              heirs-append m ready (record me { resume = goes_on } ∷ []),
            );
            when_held = λ m f. ground (
              arith,
              h'.when_held m f,
              heirs-append m ready (record me { resume = goes_on } ∷ []),
            );
            waiting = h.waiting;
            in_cv = h.in_cv;
            joining = h.joining;
            threads = (
              h'.threads.0,
              All-append IsThread ready (record me { resume = goes_on } ∷ []) h'.threads.1 (n, tt),
            );
            next_id = h.next_id;
          })
