-- ===== src/Threads/Life.antt =====
-- thread_library/thread.cpp, and the timer's handler and the waking CPU of cpu.cpp.
use os_from_scratch.Common.{
  update, ℕ, ◌+◌, true, false, List, [], ◌∷◌, ◌++◌, Option, none, some, if◌then◌else◌, get_or,
}
use os_from_scratch.Threads.{
  starts, goes_on, Context, Kernel, Cpu, add_to_ready_queue, switch, suspend_round,
}

-- The thread with the new number `i` is ready to start.
unfoldable pub construct_thread : Kernel → ℕ → Kernel
construct_thread k i =
    add_to_ready_queue
      (record k {
        infos = update k.infos i (record { join_waiting_queue = []; alive = true });
        max_id = k.max_id + 1;
      })
      (record { id = k.max_id; resume = starts i } ∷ [])

unfoldable pub join : Kernel → Cpu → Context → ℕ → Kernel × Cpu
join k self me i =
    if (k.infos i).alive
    then switch
        (record k {
          infos = update k.infos i (record (k.infos i) {
            join_waiting_queue =
                (k.infos i).join_waiting_queue ++ record me { resume = goes_on } ∷ [];
          });
        })
        self k.ready_queue
    else (k, self)

-- The context goes behind the ready ones, of which the first is next.
unfoldable pub yield_to : Kernel → Cpu → Context → List Context → Kernel × Cpu
yield_to k self me [] = (k, self)
yield_to k self me (next ∷ ready) =
    switch k self (next ∷ (ready ++ record me { resume = goes_on } ∷ []))

unfoldable pub yield : Kernel → Cpu → Context → Kernel × Cpu
yield k self me = yield_to k self me k.ready_queue

-- A CPU that runs no thread ignores the timer.
unfoldable pub timer_interrupt_handler : Kernel → Cpu → Option Context → Kernel × Cpu
timer_interrupt_handler k self none = (k, self)
timer_interrupt_handler k self (some me) =
    if get_or k.idle self.cpu_num false then (k, self) else yield k self me

-- The end of wrapped_function: the threads that joined are ready, and the stack is freed later.
unfoldable pub exit_thread : Kernel → Cpu → Context → ℕ → Kernel × Cpu
exit_thread k self me i =
    let k' =
      add_to_ready_queue
        (record k { infos = update k.infos i (record { join_waiting_queue = []; alive = false }) })
        (k.infos i).join_waiting_queue in
    switch k' (record self { last_context = none; to_kill = some me }) k'.ready_queue

-- An idle CPU that was woken looks for a thread again.
unfoldable pub woken : Kernel → Cpu → Kernel × Cpu
woken k self = suspend_round k self k.ready_queue
