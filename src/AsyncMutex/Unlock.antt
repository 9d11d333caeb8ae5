-- ===== src/AsyncMutex/Unlock.antt =====
-- unlock of async_mutex.h: the lock becomes free or is handed to one waiter.
use galay_kernel.Prelude.{
  ℕ, zero, suc, ◌+◌, ◌≤◌, ◌<◌, ◌≡◌, refl, sym, ◌∙◌, ap, subst, Bool, true, false, not, Option, none,
  some, if◌then◌else◌, if_elim, length, arith, option_list, count, List, [], ◌∷◌,
}
use galay_kernel.Concurrent.{ConcurrentQueue}
use galay_kernel.AsyncMutex.{
  Mutex, Locking, try_lock, set_active, requeue, try_wake, unlock_rounds, unlock, timeout_error,
  mark_timeout, await_resume, cancel_waiter,
}

counted_once :
    (i : ℕ) (xs ys : List ℕ) → count i (i ∷ []) + count i xs ≡ count i ys → 0 < count i ys
counted_once i xs ys e = ground (arith)

module _ (c : ConcurrentQueue) where
  -- What unlock makes of a mutex that it has just freed.
  pub data Unlocked (m : Mutex c) : Option ℕ × Mutex c → Type 0 where
    is_free : (m' : Mutex c) → m'.locked ≡ false → Unlocked m (none, m')
    hands_over :
        (i : ℕ) (m' : Mutex c)
        → m'.locked ≡ true
        → 0 < count i (c.items m.waiters)
        → m.active i ≡ true
        → m'.active i ≡ false
        → Unlocked m (some i, m')

  same_waiters :
      (m : Mutex c) (r : Option ℕ × Mutex c)
      → Unlocked (record m { locked = false }) r
      → Unlocked m r
  same_waiters m r (is_free m' e) = is_free m' e
  same_waiters m r (hands_over i m' l queued was now) = hands_over i m' l queued was now

  earlier :
      (m : Mutex c) (q : c.Queue)
      → ((j : ℕ) → count j (c.items q) ≤ count j (c.items m.waiters))
      → (r : Option ℕ × Mutex c) → Unlocked (record m { waiters = q }) r
      → Unlocked m r
  earlier m q fewer r (is_free m' e) = is_free m' e
  earlier m q fewer r (hands_over i m' l queued was now) =
      hands_over i m' l (omega (arith, fewer i, queued)) was now

  locks : (m : Mutex c) → m.locked ≡ false → try_lock c m ≡ (true, record m { locked = true })
  unfolding try_lock
  locks m free =
      if_elim (λ (r : Bool × Mutex c). r ≡ (true, record m { locked = true })) m.locked
        (λ taken. absurd (cc)) (λ _. refl)

  wake-Unlocked :
      (next : Mutex c → Option ℕ × Mutex c) (m : Mutex c)
      → m.locked ≡ false
      → (out : Option ℕ × c.Queue)
      → ((i : ℕ)
          → count i (option_list out.0) + count i (c.items out.1) ≡ count i (c.items m.waiters))
      → Unlocked (record m { waiters = out.1 }) (next (record m { waiters = out.1 }))
      → Unlocked m (try_wake c next out.0 (record m { waiters = out.1 }))
  unfolding try_wake try_lock set_active
  wake-Unlocked next m free (none, q) counted h = is_free (record m { waiters = q }) free
  wake-Unlocked next m free (some i, q) counted h =
      if_elim (Unlocked m) (not (m.active i)) (λ _. earlier m q (λ j. omega (arith, counted j)) _ h)
        (λ awake.
          subst
            (λ (r : Bool × Mutex c).
              Unlocked m (if r.0 then (some i, r.1) else (none, requeue c i r.1)))
            (sym (locks (set_active c i false (record m { waiters = q })) free))
            (hands_over i _ refl (counted_once i (c.items q) (c.items m.waiters) (counted i))
              (ground (arith)) (ground (arith))))

  rounds-Unlocked :
      (count : ℕ) (m : Mutex c) → m.locked ≡ false → Unlocked m (unlock_rounds c count m)
  unfolding unlock_rounds
  rounds-Unlocked zero m free = is_free m free
  rounds-Unlocked (suc n) m free =
      wake-Unlocked (unlock_rounds c n) m free (c.try_dequeue m.waiters)
        (λ i. c.count-try_dequeue i m.waiters) (rounds-Unlocked n _ free)

  -- More rounds than there are waiters change nothing: the loop has ended.
  rounds_enough :
      (count extra : ℕ) (m : Mutex c)
      → length (c.items m.waiters) < count
      → unlock_rounds c (count + extra) m ≡ unlock_rounds c count m
  unfolding unlock_rounds
  rounds_enough zero extra m h = absurd (omega arith)
  rounds_enough (suc n) extra m h =
      ap (λ k. unlock_rounds c k m) (let e : suc n + extra ≡ suc (n + extra) = omega arith in e)
      ∙ round (c.try_dequeue m.waiters) (c.length-try_dequeue m.waiters) (rounds_enough n extra)
    where
      round :
          (out : Option ℕ × c.Queue)
          → length (option_list out.0) + length (c.items out.1) ≡ length (c.items m.waiters)
          → ((m' : Mutex c)
              → length (c.items m'.waiters) < n
              → unlock_rounds c (n + extra) m' ≡ unlock_rounds c n m')
          → try_wake c (unlock_rounds c (n + extra)) out.0 (record m { waiters = out.1 })
            ≡ try_wake c (unlock_rounds c n) out.0 (record m { waiters = out.1 })
      round (none, q) shorter ih = refl
      round (some i, q) shorter ih =
          ap
            (λ (r : Option ℕ × Mutex c).
              if not (m.active i)
              then r
              else (let (got, m') = try_lock c (set_active c i false (record m { waiters = q })) in
                  if got then (some i, m') else (none, requeue c i m')))
            (ih (record m { waiters = q }) (omega arith))

  -- unlock ends, and leaves the mutex free, or locked for the one waiter that it wakes: one that was
  -- queued and has neither been cancelled nor been woken before, and that no later unlock will wake.
  pub unlock-Unlocked :
      (m : Mutex c)
      → Unlocked m (unlock c m)
        × ((extra : ℕ)
            → unlock_rounds c
                (suc (length (c.items m.waiters)) + extra)
                (record m { locked = false })
              ≡ unlock c m)
  unfolding unlock
  unlock-Unlocked m = (
    same_waiters m _
        (rounds-Unlocked (suc (length (c.items m.waiters))) (record m { locked = false }) refl),
    λ extra.
        rounds_enough (suc (length (c.items m.waiters))) extra (record m { locked = false })
          (omega arith),
  )

  handed_locked :
      (m : Mutex c) (r : Option ℕ × Mutex c)
      → Unlocked m r
      → (i : ℕ) → r.0 ≡ some i
      → r.1.locked ≡ true
  handed_locked m r (is_free m' l) i e = absurd (cc)
  handed_locked m r (hands_over j m' l queued was now) i e = l

  cancel_keeps : (w : Option ℕ) (m : Mutex c) → (cancel_waiter c w m).locked ≡ m.locked
  unfolding cancel_waiter set_active
  cancel_keeps none m = refl
  cancel_keeps (some i) m = refl

  refuses : (m : Mutex c) → m.locked ≡ true → (try_lock c m).0 ≡ false
  unfolding try_lock
  refuses m taken =
      if_elim (λ (r : Bool × Mutex c). r.0 ≡ false) m.locked (λ _. refl) (λ free. absurd (cc))

  -- unlock has handed the lock to a waiter, and when the coroutine resumes its timer has fired: it
  -- reports a timeout, so that it will not unlock, and the mutex stays locked: a try to lock it fails.
  pub timeout_keeps_lock :
      (m : Mutex c) (i : ℕ) (a : Locking)
      → (unlock c m).0 ≡ some i
      → let (a', m') = mark_timeout c a (unlock c m).1 in
        let (error, m'') = await_resume c a' m' in
        (error ≡ some timeout_error) × ((try_lock c m'').0 ≡ false)
  unfolding mark_timeout await_resume
  timeout_keeps_lock m i a e =
      let m1 = (unlock c m).1 in
      let m2 = cancel_waiter c a.waiter m1 in
      (
        refl,
        refuses (cancel_waiter c a.waiter m2) (
            cancel_keeps a.waiter m2
            ∙ cancel_keeps a.waiter m1
            ∙ handed_locked m (unlock c m) (unlock-Unlocked m).0 i e),
      )
