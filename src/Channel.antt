-- ===== src/Channel.antt =====
-- galay-kernel/concurrency/unsafe_channel.h: the channel between coroutines of one scheduler, with
-- its three awaitables, and the part of WithTimeout in galay-kernel/kernel/timeout.hpp that they go
-- through. A coroutine handle and a task are numbers; no exception or failed allocation is modelled.
-- Resuming a handle runs the waiting coroutine: here it is an output of the call that does it, and
-- what the coroutine then does is the next call. `m_size` wraps at 64 bits.
pub mod Consumers
pub mod Receipts
pub mod Fifo
pub mod Session
pub mod Outcome
mod Tests
use galay_kernel.Prelude.{
  ℕ, ◌-◌, zero, suc, Bool, true, false, Option, none, some, List, [], ◌∷◌, ◌++◌, ◌&&◌, ◌||◌, ltb,
  leb, ◌==◌, not, if◌then◌else◌, length, take, drop, min, add64, sub64, is_some, is_empty,
}

pub data WakeMode : Type 0 where
  inline_resume : WakeMode
  deferred : WakeMode

-- How the waiting coroutine goes on: its handle resumed here, or its task woken.
pub data Wakeup : Type 0 where
  resumed : (handle : ℕ) → Wakeup
  woken : (task : ℕ) → Wakeup

pub record Channel {ℓ} (A : Type ℓ) : Type ℓ where
  pub queue : List A
  pub size : ℕ  -- size_t
  pub wake_threshold : ℕ
  pub has_waiter : Bool
  pub wake_mode : WakeMode
  pub waiter_handle : Option ℕ
  pub waiter_task : Option ℕ

-- kTimeout, the only error of a channel.
pub data Result {ℓ} (B : Type ℓ) : Type ℓ where
  value : (b : B) → Result B
  timed_out : Result B

-- What wakeUpWaiter does with the handle and the task that it took out.
wakeup_of : WakeMode → Option ℕ → Option ℕ → Option Wakeup
wakeup_of mode none task = none
wakeup_of deferred (some handle) (some task) = some (woken task)
wakeup_of deferred (some handle) none = some (resumed handle)
wakeup_of inline_resume (some handle) task = some (resumed handle)

-- The three awaitables: recv, recvBatch with its `m_maxCount`, recvBatched with its `m_limit`.
pub data Kind : Type 0 where
  one : Kind
  batch : (max_count : ℕ) → Kind
  batched : (limit : ℕ) → Kind

module _ {ℓ} {A : Type ℓ} where
  pub init : WakeMode → Channel A
  init mode = record {
    queue = [];
    size = 0;
    wake_threshold = 1;
    has_waiter = false;
    wake_mode = mode;
    waiter_handle = none;
    waiter_task = none;
  }

  pub wake_up_waiter : Channel A → Option Wakeup × Channel A
  unfolding wakeup_of
  wake_up_waiter ch =
      if ch.has_waiter
      then (
        wakeup_of ch.wake_mode ch.waiter_handle ch.waiter_task,
        record ch {
          has_waiter = false;
          wake_threshold = 1;
          waiter_handle = none;
          waiter_task = none;
        },
      )
      else (none, ch)

  -- The test of all four ways to send.
  pub notify : Bool → Channel A → Option Wakeup × Channel A
  unfolding wake_up_waiter
  notify immediately ch =
      if ch.has_waiter && (immediately || leb ch.wake_threshold ch.size)
      then wake_up_waiter ch
      else (none, ch)

  -- Both overloads, which always return true.
  pub send : A → Bool → Channel A → Option Wakeup × Channel A
  unfolding notify
  send x immediately ch =
      notify immediately (record ch { queue = ch.queue ++ x ∷ []; size = add64 ch.size 1 })

  pub send_batch : List A → Bool → Channel A → Option Wakeup × Channel A
  unfolding notify
  send_batch values immediately ch =
      if is_empty values
      then (none, ch)
      else notify immediately
          (record ch { queue = ch.queue ++ values; size = add64 ch.size (length values) })

  -- The front of the queue moved out; the source reads it only if `m_size` is not 0.
  pub take_front : List A → Channel A → Option A × Channel A
  take_front [] ch = (none, ch)
  take_front (x ∷ xs) ch = (some x, record ch { queue = xs; size = sub64 ch.size 1 })

  pub try_recv : Channel A → Option A × Channel A
  unfolding take_front
  try_recv ch = if ch.size == 0 then (none, ch) else take_front ch.queue ch

  -- At most `max_count` values off the front.
  pub take_batch : ℕ → Channel A → List A × Channel A
  take_batch max_count ch =
      let count = min max_count ch.size in
      (take count ch.queue, record ch { queue = drop count ch.queue; size = sub64 ch.size count })

  pub try_recv_batch : ℕ → Channel A → Option (List A) × Channel A
  unfolding take_batch
  try_recv_batch max_count ch =
      if ch.size == 0
      then (none, ch)
      else (let (values, ch') = take_batch max_count ch in (some values, ch'))

  pub await_ready : Kind → Channel A → Bool
  await_ready one ch = ltb 0 ch.size
  await_ready (batch max_count) ch = ltb 0 ch.size
  await_ready (batched limit) ch = leb limit ch.size

  register : ℕ → ℕ → ℕ → Channel A → Channel A
  register handle task threshold ch = record ch {
    waiter_handle = some handle;
    waiter_task = some task;
    has_waiter = true;
    wake_threshold = threshold;
  }

  -- The flag says whether the coroutine is suspended.
  pub await_suspend : Kind → ℕ → ℕ → Channel A → Bool × Channel A
  unfolding register
  await_suspend one handle task ch =
      if ltb 0 ch.size then (false, ch) else (true, register handle task ch.wake_threshold ch)
  await_suspend (batch max_count) handle task ch =
      if ltb 0 ch.size then (false, ch) else (true, register handle task ch.wake_threshold ch)
  await_suspend (batched limit) handle task ch =
      if leb limit ch.size then (false, ch) else (true, register handle task limit ch)

  unregister : ℕ → Channel A → Channel A
  unregister threshold ch = record ch {
    has_waiter = false;
    waiter_handle = none;
    waiter_task = none;
    wake_threshold = threshold;
  }

  pub option_result : Option A → Result (List A)
  option_result none = timed_out
  option_result (some x) = value (x ∷ [])

  -- `failed` says that the timer fired first: WithTimeout has then put kTimeout in `m_result`, which
  -- only recvBatched looks at. The value of recv is a list of one.
  pub await_resume : Kind → Bool → Channel A → Result (List A) × Channel A
  unfolding unregister take_front take_batch option_result
  await_resume one failed ch =
      let ch' = unregister ch.wake_threshold ch in
      if ch.size == 0
      then (timed_out, ch')
      else (let (out, ch'') = take_front ch.queue ch' in (option_result out, ch''))
  await_resume (batch max_count) failed ch =
      let ch' = unregister ch.wake_threshold ch in
      if ch.size == 0
      then (timed_out, ch')
      else (let (values, ch'') = take_batch max_count ch' in (value values, ch''))
  await_resume (batched limit) failed ch =
      let ch' = unregister 1 ch in
      if failed
      then (timed_out, ch')
      else if ch.size == 0
      then (timed_out, ch')
      else (let (values, ch'') = take_batch ch.size ch' in (value values, ch''))
