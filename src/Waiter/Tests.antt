-- ===== src/Waiter/Tests.antt =====
-- Interleavings on an async_waiter.h.
use galay_kernel.Prelude.{◌≡◌, refl, true, none, some}
use galay_kernel.Waiter.{
  State, Steps, here, next, start, won, finished, suspended, returned, notify_ready, notify_store,
  notify_wake, await_ready_true, await_ready_false, suspend_register, suspend_stay, resume_return,
}
use galay_kernel.Waiter.Wakeups.{notified_woken}

abbrev waits_first : State
waits_first = record (start 5) {
  result = some 5;
  ready = true;
  woken = true;
  notifier = finished;
  waiter = suspended;
}

path-waits_first : Steps (start 5) waits_first
path-waits_first =
    next
      (next
        (next
          (next (next (next here (await_ready_false refl refl)) (suspend_register refl refl))
            (suspend_stay refl refl))
          (notify_ready 5 refl refl))
        (notify_store 5 refl))
      (notify_wake refl refl)

notified_woken_example : waits_first.woken ≡ true
notified_woken_example = notified_woken path-waits_first refl refl

-- No timer is set, and yet the coroutine returns with a timeout: it read `m_ready` before notify
-- stored the result.
path-early :
    Steps (start 5) (record (start 5) { ready = true; notifier = won 5; waiter = returned none })
path-early =
    next (next (next here (notify_ready 5 refl refl)) (await_ready_true refl refl))
      (resume_return refl)
