-- ===== src/Threads/Calls.antt =====
-- thread_library: a run of the library is a sequence of calls, each made by a thread on some CPU, or
-- by a CPU that is interrupted. Each is one step, as it holds the guard.
use os_from_scratch.Common.{ℕ, ◌≢◌, List, [], ◌∷◌, Option, none, some}
use os_from_scratch.Threads.{Context, Kernel, Cpu}
use os_from_scratch.Threads.Locks.{
  Released, already_free, other_owner, released, lock, unlock, wait, signal, broadcast,
}
use os_from_scratch.Threads.Life.{
  construct_thread, join, yield, timer_interrupt_handler, exit_thread, woken,
}

pub data Call : Type 0 where
  locks joins exits : Cpu → Context → ℕ → Call
  unlocks : Context → ℕ → Call
  waits : Cpu → Context → ℕ → ℕ → Call
  signals broadcasts constructs : ℕ → Call
  yields : Cpu → Context → Call
  is_timed : Cpu → Option Context → Call
  is_woken : Cpu → Call

-- A call that throws leaves the state as it is.
unfoldable pub if_released : Kernel → Released → Kernel
if_released k already_free = k
if_released k other_owner = k
if_released k (released k') = k'

unfoldable pub if_waiting : Kernel → Option (Kernel × Cpu) → Kernel
if_waiting k none = k
if_waiting k (some (k', self)) = k'

unfoldable pub perform : Kernel → Call → Kernel
unfolding if_released if_waiting
perform k (locks self me m) = (lock k self me m).0
perform k (joins self me i) = (join k self me i).0
perform k (exits self me i) = (exit_thread k self me i).0
perform k (unlocks me m) = if_released k (unlock k me m)
perform k (waits self me c m) = if_waiting k (wait k self me c m)
perform k (signals c) = signal k c
perform k (broadcasts c) = broadcast k c
perform k (constructs i) = construct_thread k i
perform k (yields self me) = (yield k self me).0
perform k (is_timed self running) = (timer_interrupt_handler k self running).0
perform k (is_woken self) = (woken k self).0

unfoldable pub performs : Kernel → List Call → Kernel
unfolding perform
performs k [] = k
performs k (call ∷ calls) = performs (perform k call) calls

-- The thread that makes a call has a number, which is never 0.
abbrev pub IsCaller : Call → Type 0
IsCaller (locks self me m) = me.id ≢ 0
IsCaller (joins self me i) = me.id ≢ 0
IsCaller (exits self me i) = Unit
IsCaller (unlocks me m) = me.id ≢ 0
IsCaller (waits self me c m) = me.id ≢ 0
IsCaller (signals c) = Unit
IsCaller (broadcasts c) = Unit
IsCaller (constructs i) = Unit
IsCaller (yields self me) = me.id ≢ 0
IsCaller (is_timed self none) = Unit
IsCaller (is_timed self (some me)) = me.id ≢ 0
IsCaller (is_woken self) = Unit
