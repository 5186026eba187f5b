-- ===== src/Threads/Exclusion/Observed.antt =====
-- thread_library/mutex.cpp: what an observer of the calls knows of the mutexes.
use os_from_scratch.Common.{
  update, ℕ, ◌+◌, ◌-◌, ◌≡◌, ◌≢◌, ◌⊎◌, ◌≤◌, inl, inr, refl, List, [], ◌∷◌, ◌++◌, ◌==◌, arith,
  if◌then◌else◌, Bool-cases,
}
use os_from_scratch.Threads.{Context, Kernel}
use os_from_scratch.Threads.Locks.{Released, already_free, other_owner, released, release_lock}
use os_from_scratch.Threads.Calls.{
  Call, locks, joins, exits, unlocks, waits, signals, broadcasts, constructs, yields, is_timed,
  is_woken, perform,
}
use os_from_scratch.Threads.Exclusion.{inherits, heirs, Exclusive}

-- How many calls of lock for a mutex a thread has made that it has not released, by mutex and thread.
abbrev pub Asked : Type 0
Asked = ℕ → ℕ → ℕ

unfoldable pub lets_go : Asked → ℕ → ℕ → Released → Asked
lets_go asked m i already_free = asked
lets_go asked m i other_owner = asked
lets_go asked m i (released k) = update asked m (update (asked m) i (asked m i - 1))

-- A lock counts when it is called; an unlock or a wait, when it does not throw.
unfoldable pub observe : Kernel → Asked → Call → Asked
unfolding lets_go
observe k asked (locks self me m) = update asked m (update (asked m) me.id (asked m me.id + 1))
observe k asked (unlocks me m) = lets_go asked m me.id (release_lock k me m)
observe k asked (waits self me c m) = lets_go asked m me.id (release_lock k me m)
observe k asked (joins self me i) = asked
observe k asked (exits self me i) = asked
observe k asked (signals c) = asked
observe k asked (broadcasts c) = asked
observe k asked (constructs i) = asked
observe k asked (yields self me) = asked
observe k asked (is_timed self running) = asked
observe k asked (is_woken self) = asked

unfoldable pub observes : Kernel → Asked → List Call → Asked
unfolding observe
observes k asked [] = asked
observes k asked (call ∷ calls) = observes (perform k call) (observe k asked call) calls

-- How often a thread is in the queue.
unfoldable pub queued : ℕ → List Context → ℕ
queued i [] = 0
queued i (c ∷ cs) = (if c.id == i then 1 else 0) + queued i cs

-- How often a thread is ready with a mutex that was handed to it.
unfoldable pub given : ℕ → ℕ → List Context → ℕ
given m i [] = 0
given m i (c ∷ cs) = (if c.id == i then inherits m c.resume else 0) + given m i cs

-- What a thread asked for and has not released: its places in the queue, and the mutex itself.
abbrev pub Accounted : Kernel → Asked → Type 0
Accounted k asked =
    (m i : ℕ)
    → i ≢ 0
    → asked m i
      ≡ queued i (k.mutexes m).waiting_queue
        + given m i k.ready_queue
        + (if (k.mutexes m).owner == i then 1 else 0)

pub queued-append : (i : ℕ) (xs ys : List Context) → queued i (xs ++ ys) ≡ queued i xs + queued i ys
unfolding queued
queued-append i [] ys = omega arith
queued-append i (x ∷ xs) ys = omega (arith, queued-append i xs ys)

pub given-append :
    (m i : ℕ) (xs ys : List Context) → given m i (xs ++ ys) ≡ given m i xs + given m i ys
unfolding given
given-append m i [] ys = omega arith
given-append m i (x ∷ xs) ys = omega (arith, given-append m i xs ys)

pub given-heirs : (m i j : ℕ) (xs : List Context) → i ≢ j → given m i xs + given m j xs ≤ heirs m xs
unfolding given heirs
given-heirs m i j [] n = omega arith
given-heirs m i j (x ∷ xs) n = ground (arith, given-heirs m i j xs n)

pub given_plain : (m i : ℕ) (xs : List Context) → heirs m xs ≡ 0 → given m i xs ≡ 0
unfolding given heirs
given_plain m i [] h = refl
given_plain m i (x ∷ xs) h = ground (arith, given_plain m i xs)

-- Of two threads, one has the mutex only in its queue.
pub one_inside :
    (k : Kernel) (asked : Asked) (m i j : ℕ)
    → Exclusive k
    → Accounted k asked
    → i ≢ 0
    → j ≢ 0
    → i ≢ j
    → (asked m i ≡ queued i (k.mutexes m).waiting_queue)
      ⊎ (asked m j ≡ queued j (k.mutexes m).waiting_queue)
one_inside k asked m i j h a x y n = elim (Bool-cases (k.mutexes m).free) [
  | inl f ↦ ground (arith, a m i x, h.when_free m f, given-heirs m i j k.ready_queue n)
  | inr f ↦ ground (arith, a m i x, a m j y, h.when_held m f, given-heirs m i j k.ready_queue n)
]
