-- ===== src/Threads/Waking.antt =====
-- thread_library/cpu.cpp: which CPUs are woken when threads become ready.
use os_from_scratch.Common.{
  ℕ, zero, suc, ◌+◌, ◌≤◌, ◌≡◌, ◌⊎◌, inl, inr, refl, length-append, Bool, true, false, not, ◌&&◌,
  List, [], ◌∷◌, ◌++◌, ◌==◌, ◌<◌, if◌then◌else◌, ap, ◌∙◌, length, arith,
}
use os_from_scratch.Threads.{Kernel, wake, check_ready_and_wake}

-- How many CPUs are idle.
unfoldable pub sleepers : List Bool → ℕ
sleepers [] = 0
sleepers (false ∷ idle) = sleepers idle
sleepers (true ∷ idle) = suc (sleepers idle)

-- How often the number is listed.
unfoldable pub times : ℕ → List ℕ → ℕ
times i [] = 0
times i (x ∷ xs) = (if x == i then 1 else 0) + times i xs

times-append : (i : ℕ) (xs ys : List ℕ) → times i (xs ++ ys) ≡ times i xs + times i ys
unfolding times
times-append i [] ys = omega arith
times-append i (x ∷ xs) ys = omega (arith, times-append i xs ys)

-- CPU `i` is idle; the list begins with CPU `from`.
unfoldable pub is_idle : ℕ → List Bool → ℕ → Bool
is_idle from [] i = false
is_idle from (b ∷ idle) i = if from == i then b else is_idle (from + 1) idle i

is_idle_below : (from : ℕ) (idle : List Bool) (i : ℕ) → i < from → is_idle from idle i ≡ false
unfolding is_idle
is_idle_below from [] i h = refl
is_idle_below from (b ∷ idle) i h = ground (arith, is_idle_below (from + 1) idle i)

-- The CPUs that stop being idle are those that an interrupt is sent to, once each.
wake-times :
    (n from : ℕ) (idle : List Bool) (i : ℕ)
    → (times i (wake n from idle).1
        ≡ (if is_idle from idle i && not (is_idle from (wake n from idle).0 i) then 1 else 0))
      × (is_idle from (wake n from idle).0 i ≡ true → is_idle from idle i ≡ true)
unfolding wake times is_idle
wake-times n from [] i = (refl, λ h. h)
wake-times zero from (b ∷ idle) i = (ground arith, λ h. h)
wake-times (suc n) from (false ∷ idle) i =
    ground (arith, wake-times (suc n) (from + 1) idle i, is_idle_below (from + 1) idle i)
wake-times (suc n) from (true ∷ idle) i = ground (
  arith,
  wake-times n (from + 1) idle i,
  is_idle_below (from + 1) idle i,
  is_idle_below (from + 1) (wake n (from + 1) idle).0 i,
)

wake_lem :
    (n i : ℕ) (idle : List Bool)
    → (sleepers (wake n i idle).0 + length (wake n i idle).1 ≡ sleepers idle)
      × (length (wake n i idle).1 ≤ n)
      × ((sleepers (wake n i idle).0 ≡ 0) ⊎ (length (wake n i idle).1 ≡ n))
unfolding wake sleepers
wake_lem n i [] = (refl, omega arith, inl refl)
wake_lem zero i (b ∷ idle) = (omega arith, omega arith, inr refl)
wake_lem (suc n) i (false ∷ idle) = wake_lem (suc n) (i + 1) idle
wake_lem (suc n) i (true ∷ idle) = ground (arith, wake_lem n (i + 1) idle)

-- Each CPU that stops being idle is sent one interrupt, and no other CPU is sent any or becomes
-- idle; no more CPUs are woken than there are ready threads, and as many as that are woken unless no
-- CPU is left idle. The threads, mutexes and queues are as they were.
pub check_ready_and_wake_lem :
    (k : Kernel)
    → ((i : ℕ)
        → (times i (check_ready_and_wake k).interrupts
            ≡ times i k.interrupts
              + (if is_idle 0 k.idle i && not (is_idle 0 (check_ready_and_wake k).idle i)
                  then 1
                  else 0))
          × (is_idle 0 (check_ready_and_wake k).idle i ≡ true → is_idle 0 k.idle i ≡ true))
      × (sleepers (check_ready_and_wake k).idle + length (check_ready_and_wake k).interrupts
          ≡ sleepers k.idle + length k.interrupts)
      × (length (check_ready_and_wake k).interrupts ≤ length k.interrupts + length k.ready_queue)
      × ((sleepers (check_ready_and_wake k).idle ≡ 0)
          ⊎ (length (check_ready_and_wake k).interrupts
              ≡ length k.interrupts + length k.ready_queue))
      × (check_ready_and_wake k ≡ record k {
        idle = (check_ready_and_wake k).idle;
        interrupts = (check_ready_and_wake k).interrupts;
      })
unfolding check_ready_and_wake
check_ready_and_wake_lem k =
    let sent = (wake (length k.ready_queue) 0 k.idle).1 in
    let w = wake_lem (length k.ready_queue) 0 k.idle in
    let total = length-append k.interrupts sent in
    (
      λ i.
          let t = wake-times (length k.ready_queue) 0 k.idle i in
          (times-append i k.interrupts sent ∙ ap (λ x. times i k.interrupts + x) t.0, t.1),
      omega (arith, w.0, total),
      omega (arith, w.1, total),
      ground (arith, w.2, total),
      refl,
    )
