-- ===== src/TimerWheel/Timers.antt =====
-- galay-kernel/common/timer.hpp: a timer's state and what its timeout does. The bits kDone and
-- kCancel of `m_flag` are two fields; kTimeout, which only some timers set, is left out.
use galay_kernel.Prelude.{ℕ, Bool, true, false, not, ◌&&◌, ◌==◌, if◌then◌else◌, add64}

pub record Timer : Type 0 where
  pub done : Bool
  pub cancelled : Bool
  pub delay : ℕ
  pub expire_time : ℕ

unfoldable pub new_timer : ℕ → Timer
new_timer delay = record { done = false; cancelled = false; delay = delay; expire_time = 0 }

-- CBTimer::handleTimeout: the flag says whether the callback runs.
unfoldable pub handle_timeout : Timer → Bool × Timer
handle_timeout t = (not t.cancelled && not t.done, record t { done = true })

pub cancel : Timer → Timer
cancel t = record t { cancelled = true }

-- The expiry is fixed at the first call, from the clock's reading.
unfoldable pub get_expire_time : ℕ → Timer → ℕ × Timer
get_expire_time reading t =
    if t.expire_time == 0
    then (let time = add64 reading t.delay in (time, record t { expire_time = time }))
    else (t.expire_time, t)
