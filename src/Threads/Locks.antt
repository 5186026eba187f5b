-- ===== src/Threads/Locks.antt =====
-- thread_library/mutex.cpp and cv.cpp. `me` is the context that the CPU runs.
use os_from_scratch.Common.{
  update, ℕ, true, false, not, List, [], ◌∷◌, ◌++◌, Option, none, some, ◌==◌, if◌then◌else◌,
}
use os_from_scratch.Threads.{owns, relocks, Context, Kernel, Cpu, add_to_ready_queue, switch}

-- The exceptions of release_lock.
pub data Released : Type 0 where
  already_free other_owner : Released
  released : Kernel → Released

unfoldable pub lock : Kernel → Cpu → Context → ℕ → Kernel × Cpu
lock k self me m =
    if not (k.mutexes m).free
    then switch
        (record k {
          mutexes = update k.mutexes m (record (k.mutexes m) {
            waiting_queue = (k.mutexes m).waiting_queue ++ record me { resume = owns m } ∷ [];
          });
        })
        self k.ready_queue
    else (
      record k {
        mutexes = update k.mutexes m (record (k.mutexes m) { free = false; owner = me.id });
      },
      self,
    )

-- The mutex is free, or goes to the first that waits for it.
unfoldable pub hand_over : Kernel → ℕ → List Context → Kernel
hand_over k m [] = record k {
  mutexes = update k.mutexes m (record (k.mutexes m) { free = true; owner = 0 });
}
hand_over k m (next ∷ waiting) =
    add_to_ready_queue
      (record k {
        mutexes = update k.mutexes m (record { waiting_queue = waiting; owner = 0; free = false });
      })
      (next ∷ [])

unfoldable pub release_lock : Kernel → Context → ℕ → Released
release_lock k me m =
    if (k.mutexes m).free
    then already_free
    else if not (me.id == (k.mutexes m).owner)
    then other_owner
    else released (hand_over k m (k.mutexes m).waiting_queue)

unfoldable pub unlock : Kernel → Context → ℕ → Released
unlock k me m = release_lock k me m

-- cv::wait up to the switch; it ends by a call of lock once the context is resumed.
unfoldable pub wait_from : Released → Cpu → Context → ℕ → ℕ → Option (Kernel × Cpu)
wait_from already_free self me c m = none
wait_from other_owner self me c m = none
wait_from (released k) self me c m = some (
    switch (record k { cvs = update k.cvs c (k.cvs c ++ record me { resume = relocks m } ∷ []) })
      self k.ready_queue)

unfoldable pub wait : Kernel → Cpu → Context → ℕ → ℕ → Option (Kernel × Cpu)
wait k self me c m = wait_from (release_lock k me m) self me c m

unfoldable pub signal_first : Kernel → ℕ → List Context → Kernel
signal_first k c [] = k
signal_first k c (next ∷ waiting) =
    add_to_ready_queue (record k { cvs = update k.cvs c waiting }) (next ∷ [])

unfoldable pub signal : Kernel → ℕ → Kernel
signal k c = signal_first k c (k.cvs c)

unfoldable pub broadcast : Kernel → ℕ → Kernel
broadcast k c = add_to_ready_queue (record k { cvs = update k.cvs c [] }) (k.cvs c)
