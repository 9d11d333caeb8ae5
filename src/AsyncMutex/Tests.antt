-- ===== src/AsyncMutex/Tests.antt =====
-- A mutex that is held, with one waiter.
use galay_kernel.Prelude.{ℕ, ◌≡◌, ◌+◌, refl, true, false, none, some, [], ◌∷◌}
use galay_kernel.Concurrent.{list_queue}
use galay_kernel.AsyncMutex
use galay_kernel.AsyncMutex.{
  Mutex, Locking, unlock, unlock_rounds, mark_timeout, await_resume, try_lock, timeout_error,
}
use galay_kernel.AsyncMutex.Unlock.{Unlocked, unlock-Unlocked, timeout_keeps_lock}

abbrev held : Mutex list_queue
held = record { locked = true; waiters = 7 ∷ []; active = λ i. true }

abbrev waits : Locking
waits = record { waiter = some 7; result = none }

unlock-wakes : (unlock list_queue held).0 ≡ some 7
unfolding unlock unlock_rounds AsyncMutex.try_wake AsyncMutex.set_active try_lock
unlock-wakes = refl

unlock-Unlocked_example :
    Unlocked list_queue held (unlock list_queue held)
    × ((extra : ℕ)
        → unlock_rounds list_queue (2 + extra) (record held { locked = false })
          ≡ unlock list_queue held)
unlock-Unlocked_example = unlock-Unlocked list_queue held

timeout_keeps_lock_example :
    let (a, m) = mark_timeout list_queue waits (unlock list_queue held).1 in
    let (error, m') = await_resume list_queue a m in
    (error ≡ some timeout_error) × ((try_lock list_queue m').0 ≡ false)
timeout_keeps_lock_example = timeout_keeps_lock list_queue held 7 waits unlock-wakes
