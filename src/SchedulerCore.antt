-- ===== src/SchedulerCore.antt =====
-- galay-kernel/kernel/scheduler_core.h and sched_loop.hpp, in part: when a scheduler's loop fetches
-- injected tasks, whether it has work, and how many passes it makes before it polls. The passes
-- themselves resume coroutines and are not modelled here.
pub mod Collect
mod Tests
use galay_kernel.Prelude.{
  ℕ, ◌/◌, max, Bool, true, false, not, ◌||◌, ltb, ◌==◌, if◌then◌else◌, List, Option,
}
use galay_kernel.Concurrent.{ConcurrentQueue}
use galay_kernel.Ring.{Ring}
use galay_kernel.Worker
use galay_kernel.Worker.{Worker}

-- The bound on follow-up passes in runIOSchedulerEventLoop.
pub local_followup_pass_limit : ℕ → ℕ
local_followup_pass_limit batch_size =
    let bs = if ltb 0 batch_size then batch_size else 1 in
    let limit = 4096 / bs in
    let limit' = if limit == 0 then 1 else limit in if ltb 16 limit' then 16 else limit'

module _ (c : ConcurrentQueue) where
  -- The core holds its worker by reference; here it is a part of it.
  pub record Core : Type 0 where
    pub worker : Worker c
    pub ready_budget : ℕ

  pub init : Worker c → ℕ → Core
  init worker ready_budget = record { worker = worker; ready_budget = max 1 ready_budget }

  pub set_ready_budget : ℕ → Core → Core
  set_ready_budget ready_budget core = record core { ready_budget = max 1 ready_budget }

  pub has_pending_work : Core → Bool
  has_pending_work core =
      Worker.has_local_work c core.worker || Worker.has_pending_injected c core.worker

  pub try_steal : (ℕ → Bool) → ℕ → List (Option Ring) → Core → Bool × List (Option Ring) × Core
  try_steal owner_only start siblings core =
      let (found, siblings', w) = Worker.try_steal c owner_only start siblings core.worker in
      (found, siblings', record core { worker = w })

  -- The count is what the callback is told.
  pub collect_remote : Core → ℕ × Core
  collect_remote core =
      if not (Worker.has_local_work c core.worker)
        || Worker.should_check_injected c core.worker
        || Worker.has_pending_injected c core.worker
      then (let (drained, w) = Worker.drain_injected c core.worker in
          (drained, record core { worker = w }))
      else (0, core)
