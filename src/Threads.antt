-- ===== src/Threads.antt =====
-- thread_library: the state that the threads share, the queues of contexts, and how a CPU goes from
-- one context to the next. A part of the code between guard_lock and guard_unlock is one step.
pub mod Locks
pub mod Life
pub mod Calls
pub mod Exclusion
pub mod Waking
use os_from_scratch.Common.{
  update, ℕ, zero, suc, ◌+◌, Bool, true, false, not, ◌&&◌, List, [], ◌∷◌, ◌++◌, Option, none, some,
  length, ◌==◌, ltb, if◌then◌else◌, set,
}

-- What a context does when a CPU goes on with it, up to the next guard_unlock: a new thread starts,
-- a thread in mutex::lock becomes the owner, one in cv::wait locks the mutex once the guard is free
-- again, and one in join, yield or the timer's handler does nothing more.
pub data Resume : Type 0 where
  starts owns relocks : ℕ → Resume
  goes_on : Resume

pub record Context : Type 0 where
  pub id : ℕ
  pub resume : Resume

pub record Mutex : Type 0 where
  pub waiting_queue : List Context
  pub owner : ℕ
  pub free : Bool

-- struct shared_thread_info.
pub record Info : Type 0 where
  pub join_waiting_queue : List Context
  pub alive : Bool

-- The shared state. An object is named by a number, as by its address; `idle` has the flags is_idle
-- of cpu_vec, and `interrupts` the CPUs that an interrupt was sent to.
pub record Kernel : Type 0 where
  pub ready_queue : List Context
  pub idle : List Bool
  pub interrupts : List ℕ
  pub mutexes : ℕ → Mutex
  pub cvs : ℕ → List Context
  pub infos : ℕ → Info
  pub max_id : ℕ

-- The executing CPU: its number, the context that it runs, if any, and the one to be freed.
pub record Cpu : Type 0 where
  pub cpu_num : ℕ
  pub last_context : Option Context
  pub to_kill : Option Context

-- The loop over cpu_vec, from CPU `i` on, with the number of threads not handled yet.
unfoldable pub wake : ℕ → ℕ → List Bool → List Bool × List ℕ
wake unhandled_threads i [] = ([], [])
wake zero i idle = (idle, [])
wake (suc n) i (false ∷ idle) =
    let (idle', sent) = wake (suc n) (i + 1) idle in (false ∷ idle', sent)
wake (suc n) i (true ∷ idle) = let (idle', sent) = wake n (i + 1) idle in (false ∷ idle', i ∷ sent)

unfoldable pub check_ready_and_wake : Kernel → Kernel
check_ready_and_wake k =
    let (idle, sent) = wake (length k.ready_queue) 0 k.idle in
    record k { idle = idle; interrupts = k.interrupts ++ sent }

-- add_to_ready_queue for one context and for a queue, which its caller then has empty.
unfoldable pub add_to_ready_queue : Kernel → List Context → Kernel
add_to_ready_queue k contexts =
    check_ready_and_wake (record k { ready_queue = k.ready_queue ++ contexts })

-- What the context that a CPU goes on with does in the section of the code that switched to it.
unfoldable pub resume_as : Kernel → ℕ → Resume → Kernel
resume_as k id (starts i) = k
resume_as k id (owns m) = record k {
  mutexes = update k.mutexes m (record (k.mutexes m) { owner = id });
}
resume_as k id (relocks m) = k
resume_as k id goes_on = k

unfoldable pub resumed : Kernel → Context → Kernel
resumed k context = resume_as k context.id context.resume

-- watch_suspend's round: the last context is freed, and a ready thread is run, or the CPU sleeps.
unfoldable pub suspend_round : Kernel → Cpu → List Context → Kernel × Cpu
suspend_round k self [] = (
  record k { idle = set k.idle self.cpu_num true },
  record self { last_context = none; to_kill = none },
)
suspend_round k self (next ∷ ready) = (
  resumed (record k { ready_queue = ready }) next,
  record self { last_context = some next; to_kill = none },
)

-- The CPU leaves its context: the first that is ready is next, or the CPU goes to sleep.
unfoldable pub switch : Kernel → Cpu → List Context → Kernel × Cpu
switch k self [] = suspend_round k self []
switch k self (next ∷ ready) =
    (resumed (record k { ready_queue = ready }) next, record self { last_context = some next })
