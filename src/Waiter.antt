-- ===== src/Waiter.antt =====
-- galay-kernel/concurrency/async_waiter.h, AsyncWaiter<T> and its awaitable: one coroutine waits for
-- one value, one atomic access at a time. The calls of notify that lose the compare-exchange on
-- `m_ready` return false at once and are left out. The waker is set before `m_waiting` and is not a
-- part of the state; `woken` says that wakeUp was called.
pub mod Wakeups
mod Tests
use galay_kernel.Prelude.{ℕ, ◌≡◌, Bool, true, false, Option, none, some}

-- The call of notify that wins, before its first access, then after each.
pub data Notifier : Type 0 where
  fresh : (result : ℕ) → Notifier
  won : (result : ℕ) → Notifier  -- before the store to `m_result`
  stored : Notifier  -- before the compare-exchange on `m_waiting`
  finished : Notifier

pub data Waiting : Type 0 where
  starting : Waiting  -- before await_ready
  unready : Waiting  -- before the compare-exchange of await_suspend
  registered : Waiting  -- before its load of `m_ready`
  withdrawing : Waiting  -- before its store to `m_waiting`
  suspended : Waiting
  resuming : Waiting  -- before await_resume
  returned : (result : Option ℕ) → Waiting  -- `none` is IOError(kTimeout, 0)

pub record State : Type 0 where
  pub result : Option ℕ
  pub waiting : Bool
  pub ready : Bool
  pub woken : Bool
  pub notifier : Notifier
  pub waiter : Waiting

abbrev pub start : ℕ → State
start result = record {
  result = none;
  waiting = false;
  ready = false;
  woken = false;
  notifier = fresh result;
  waiter = starting;
}

pub data Step (s : State) : State → Type 0 where
  notify_ready :
      (v : ℕ)
      → s.notifier ≡ fresh v
      → s.ready ≡ false
      → Step s (record s { ready = true; notifier = won v })
  notify_store :
      (v : ℕ) → s.notifier ≡ won v → Step s (record s { result = some v; notifier = stored })
  notify_wake :
      s.notifier ≡ stored
      → s.waiting ≡ true
      → Step s (record s { waiting = false; woken = true; notifier = finished })
  notify_quiet : s.notifier ≡ stored → s.waiting ≡ false → Step s (record s { notifier = finished })
  await_ready_true : s.waiter ≡ starting → s.ready ≡ true → Step s (record s { waiter = resuming })
  await_ready_false : s.waiter ≡ starting → s.ready ≡ false → Step s (record s { waiter = unready })
  suspend_register :
      s.waiter ≡ unready
      → s.waiting ≡ false
      → Step s (record s { waiting = true; waiter = registered })
  suspend_ready :
      s.waiter ≡ registered → s.ready ≡ true → Step s (record s { waiter = withdrawing })
  suspend_withdraw :
      s.waiter ≡ withdrawing → Step s (record s { waiting = false; waiter = resuming })
  suspend_stay : s.waiter ≡ registered → s.ready ≡ false → Step s (record s { waiter = suspended })
  wake_resume : s.waiter ≡ suspended → s.woken ≡ true → Step s (record s { waiter = resuming })
  resume_return : s.waiter ≡ resuming → Step s (record s { waiter = returned s.result })

pub data Steps (s : State) : State → Type 0 where
  here : Steps s s
  next : {t u : State} → Steps s t → Step t u → Steps s u
