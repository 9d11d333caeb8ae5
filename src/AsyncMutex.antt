-- ===== src/AsyncMutex.antt =====
-- galay-kernel/concurrency/async_mutex.h: the mutex whose waiters are coroutines, one whole call after
-- the other. A waiter is the address of its AsyncMutexWaiter, which is never null. `m_waiters` is a
-- moodycamel queue, a parameter.
pub mod Unlock
mod Tests
use galay_kernel.Prelude.{
  ℕ, zero, suc, ◌+◌, Bool, true, false, not, Option, none, some, if◌then◌else◌, length, update,
}
use galay_kernel.Error
use galay_kernel.Error.{IoError}
use galay_kernel.Concurrent.{ConcurrentQueue}

-- kTimeout
pub timeout_error : IoError
timeout_error = Error.make 15 0

-- AsyncMutexAwaitable, with `m_result` none for a value.
pub record Locking : Type 0 where
  pub waiter : Option ℕ
  pub result : Option IoError

module _ (c : ConcurrentQueue) where
  open c use {Queue, enqueue, try_dequeue}

  pub record Mutex : Type 0 where
    pub locked : Bool
    pub waiters : Queue
    -- AsyncMutexWaiter::active
    pub active : ℕ → Bool

  unfoldable pub try_lock : Mutex → Bool × Mutex
  try_lock m = if m.locked then (false, m) else (true, record m { locked = true })

  unfoldable pub set_active : ℕ → Bool → Mutex → Mutex
  set_active i b m = record m { active = update m.active i b }

  unfoldable pub requeue : ℕ → Mutex → Mutex
  unfolding set_active
  requeue i m = let m' = set_active i true m in record m' { waiters = (enqueue m'.waiters i).1 }

  -- The rest of a round of unlock; the result is the waiter that is woken.
  unfoldable pub try_wake : (Mutex → Option ℕ × Mutex) → Option ℕ → Mutex → Option ℕ × Mutex
  unfolding try_lock set_active requeue
  try_wake next none m = (none, m)
  try_wake next (some i) m =
      if not (m.active i)
      then next m
      else (let (got, m') = try_lock (set_active i false m) in
          if got then (some i, m') else (none, requeue i m'))

  -- The loop of unlock, at most `count` rounds of it.
  unfoldable pub unlock_rounds : ℕ → Mutex → Option ℕ × Mutex
  unfolding try_wake
  unlock_rounds zero m = (none, m)
  unlock_rounds (suc count) m =
      let (out, waiters) = try_dequeue m.waiters in
      try_wake (unlock_rounds count) out (record m { waiters = waiters })

  -- A round for each waiter, and one that finds the queue empty.
  unfoldable pub unlock : Mutex → Option ℕ × Mutex
  unfolding unlock_rounds
  unlock m = unlock_rounds (suc (length (c.items m.waiters))) (record m { locked = false })

  unfoldable pub await_ready : Locking → Mutex → Bool × Locking × Mutex
  unfolding try_lock
  await_ready a m =
      let (got, m') = try_lock m in (got, if got then record a { result = none } else a, m')

  unfoldable pub cancel_waiter : Option ℕ → Mutex → Mutex
  unfolding set_active
  cancel_waiter none m = m
  cancel_waiter (some i) m = set_active i false m

  -- `i` is the waiter that is made; the flag says that the coroutine is suspended.
  unfoldable pub await_suspend : ℕ → Locking → Mutex → Bool × Locking × Mutex
  unfolding requeue try_lock cancel_waiter
  await_suspend i a m =
      let (got, m') = try_lock (requeue i m) in
      if got
      then (false, record { waiter = some i; result = none }, cancel_waiter (some i) m')
      else (true, record a { waiter = some i }, m')

  unfoldable pub mark_timeout : Locking → Mutex → Locking × Mutex
  unfolding cancel_waiter
  mark_timeout a m = (record a { result = some timeout_error }, cancel_waiter a.waiter m)

  unfoldable pub await_resume : Locking → Mutex → Option IoError × Mutex
  unfolding cancel_waiter
  await_resume a m = (a.result, cancel_waiter a.waiter m)
