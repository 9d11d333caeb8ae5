-- ===== src/WakeCoordinator.antt =====
-- galay-kernel/kernel/wake_coordinator.h: which requests to wake a scheduler are passed on to its
-- notifier and which are merged with one that is under way. `notify_fn` is a parameter of the code;
-- here a flag says whether it is called. Calls run one after the other: the one access that must
-- not be torn, the exchange of `m_wakeup_pending`, is atomic in the code. Counters wrap at 64 bits.
pub mod Counts
mod Tests
use galay_kernel.Prelude.{ℕ, Bool, true, false, not, ◌||◌, ◌==◌, if◌then◌else◌, add64}

-- `sleeping` and `wakeup_pending` are flags of the scheduler, held by reference.
pub record WakeCoordinator : Type 0 where
  pub sleeping : Bool
  pub wakeup_pending : Bool
  pub wake_requests : ℕ
  pub wake_emits : ℕ
  pub coalesced_wakes : ℕ

pub init : Bool → Bool → WakeCoordinator
init sleeping wakeup_pending = record {
  sleeping = sleeping;
  wakeup_pending = wakeup_pending;
  wake_requests = 0;
  wake_emits = 0;
  coalesced_wakes = 0;
}

-- The flag is the result, which is true just when the notifier was called.
pub request_wake : Bool → WakeCoordinator → Bool × WakeCoordinator
request_wake queue_was_empty c =
    let c' = record c { wake_requests = add64 c.wake_requests 1 } in
    if not (queue_was_empty || c'.sleeping)
    then (false, record c' { coalesced_wakes = add64 c'.coalesced_wakes 1 })
    else if c'.wakeup_pending
    then (false, record c' { coalesced_wakes = add64 c'.coalesced_wakes 1 })
    else (true, record c' { wakeup_pending = true; wake_emits = add64 c'.wake_emits 1 })

-- Calls the notifier always, which the flag says.
pub force_wake : WakeCoordinator → Bool × WakeCoordinator
force_wake c = (true, record c { wake_emits = add64 c.wake_emits 1 })

pub mark_sleeping : WakeCoordinator → WakeCoordinator
mark_sleeping c = record c { sleeping = true }

pub mark_awake : WakeCoordinator → WakeCoordinator
mark_awake c = record c { sleeping = false }

pub cancel_pending_wake : WakeCoordinator → WakeCoordinator
cancel_pending_wake c = record c { wakeup_pending = false }

pub on_remote_collected : ℕ → WakeCoordinator → WakeCoordinator
unfolding mark_awake cancel_pending_wake
on_remote_collected drained c = if drained == 0 then c else cancel_pending_wake (mark_awake c)
