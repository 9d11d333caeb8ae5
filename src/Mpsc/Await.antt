-- ===== src/Mpsc/Await.antt =====
-- The awaitables of mpsc_channel.h. Both are the same code around another call: `receive` is tryRecv
-- for recv and tryRecvBatch with its maximum for recvBatch.
use galay_kernel.Prelude.{
  ℕ, ◌+◌, ◌-◌, ◌<◌, ◌≡◌, refl, subst, drop, get_elem?, length-append, Bool, true, false, not, ◌||◌,
  ◌==◌, Option, none, some, [], if◌then◌else◌, if_elim, is_some, arith, length, option_list, ap,
  ◌∙◌, sym,
}
use galay_kernel.Concurrent.{ConcurrentQueue}
use galay_kernel.WaitRegistration
use galay_kernel.WaitRegistration.{arm, clear}
use galay_kernel.Mpsc
use galay_kernel.Mpsc.{Channel, try_recv, wake_if_needed, counted_enqueue}
use galay_kernel.Mpsc.Buffer.{drop-get, get-length, nil_of_length}
use galay_kernel.Mpsc.Order.{unordered}
use galay_kernel.Mpsc.Delivery.{IsValid, contents, try_recv-Took}

-- kTimeout is the only error.
pub data Outcome {ℓ} (A : Type ℓ) : Type ℓ where
  value : (a : A) → Outcome A
  timed_out : Outcome A

pub record Awaitable {ℓ} (A : Type ℓ) : Type ℓ where
  pub waiter_state : Option ℕ
  pub ready : Option A

module _ (c : ConcurrentQueue) {A : Type 0} (receive : Channel c → Option A × Channel c) where
  keep_ready : Awaitable A → Option A → Channel c → Bool × Awaitable A × Channel c
  keep_ready a none ch = let (out, ch') = receive ch in (is_some out, record a { ready = out }, ch')
  keep_ready a (some v) ch = (true, a, ch)

  pub try_receive_now : Awaitable A → Channel c → Bool × Awaitable A × Channel c
  unfolding keep_ready
  try_receive_now a ch = keep_ready a a.ready ch

  pub await_ready : Awaitable A → Channel c → Bool × Awaitable A × Channel c
  unfolding try_receive_now
  await_ready a ch = try_receive_now a ch

  publish_waiter : ℕ → Channel c → Channel c
  publish_waiter task ch = record ch { registration = (arm (some task) ch.registration).1 }

  clear_waiter : ℕ → Channel c → Bool × Channel c
  clear_waiter task ch =
      let (cleared, registration) = clear (some task) ch.registration in
      (cleared, record ch { registration = registration })

  -- The flag says whether the coroutine is suspended.
  pub await_suspend : ℕ → Awaitable A → Channel c → Bool × Awaitable A × Channel c
  unfolding try_receive_now publish_waiter clear_waiter
  await_suspend task a ch =
      let (now, a1, ch1) = try_receive_now a ch in
      if now
      then (false, a1, ch1)
      else (let (got, a2, ch2) =
            try_receive_now (record a1 { waiter_state = some task }) (publish_waiter task ch1) in
          if not got
          then (true, a2, ch2)
          else (let (cleared, ch3) = clear_waiter task ch2 in (not cleared, a2, ch3)))

  forget_waiter : Option ℕ → Channel c → Channel c
  unfolding clear_waiter
  forget_waiter none ch = ch
  forget_waiter (some task) ch = (clear_waiter task ch).1

  outcome_of : Option A → Outcome A
  outcome_of none = timed_out
  outcome_of (some v) = value v

  hand_over : Option A → Channel c → Outcome A × Channel c
  unfolding outcome_of
  hand_over (some v) ch = (value v, ch)
  hand_over none ch = let (out, ch') = receive ch in (outcome_of out, ch')

  pub await_resume : Awaitable A → Channel c → Outcome A × Channel c
  unfolding forget_waiter hand_over
  await_resume a ch = hand_over a.ready (forget_waiter a.waiter_state ch)

  now-ready :
      (a : Awaitable A) (ch : Channel c)
      → let (now, a', ch') = try_receive_now a ch in now ≡ is_some a'.ready
  unfolding try_receive_now
  now-ready a ch = go a.ready refl
    where
      go :
          (r : Option A)
          → r ≡ a.ready
          → let (now, a', ch') = keep_ready a r ch in now ≡ is_some a'.ready
      go none e = refl
      go (some v) e = ap is_some e

  -- The second try of await_suspend, with the waiter published.
  abbrev registered_try : ℕ → Awaitable A → Channel c → Bool × Awaitable A × Channel c
  unfolding try_receive_now publish_waiter
  registered_try task a ch =
      let (now, a1, ch1) = try_receive_now a ch in
      try_receive_now (record a1 { waiter_state = some task }) (publish_waiter task ch1)

  -- A coroutine that is not suspended has its value, so that its await_resume returns one at once.
  pub await_suspend-ready :
      (task : ℕ) (a : Awaitable A) (ch : Channel c)
      → let (suspended, a', ch') = await_suspend task a ch in
        suspended ≡ false → is_some a'.ready ≡ true
  unfolding await_suspend
  await_suspend-ready task a ch =
      if_elim (λ (r : Bool × Awaitable A × Channel c). r.0 ≡ false → is_some r.1.ready ≡ true)
        (try_receive_now a ch).0 (λ yes _. sym (now-ready a ch) ∙ yes)
        (λ no_1.
          if_elim (λ (r : Bool × Awaitable A × Channel c). r.0 ≡ false → is_some r.1.ready ≡ true)
            (not (registered_try task a ch).0) (λ _ e. absurd (cc))
            (λ got _. sym (now-ready _ _) ∙ ground arith))

module _ (c : ConcurrentQueue) where
  -- With nothing sent and not received, tryRecv gives nothing and changes nothing.
  try_recv_empty : (ch : Channel c) → IsValid c ch → contents c ch ≡ [] → try_recv c ch ≡ (none, ch)
  unfolding try_recv Mpsc.from_queue Mpsc.try_pop_prefetched_value Mpsc.prefetched_count
  try_recv_empty ch v e =
      let len : length (drop ch.prefetch_index ch.prefetch) + length (c.items ch.queue) ≡ 0 =
        sym (length-append (drop ch.prefetch_index ch.prefetch) (c.items ch.queue)) ∙ ap length e in
      if_elim (λ (r : Option ℕ × Channel c). Mpsc.from_queue c r.0 r.1 ≡ (none, ch))
        (ch.prefetch_count - ch.prefetch_index == 0)
        (λ _.
          if_elim (λ (r : Option ℕ × Channel c). r ≡ (none, ch)) (ch.size == 0) (λ _. refl)
            (λ some_left. absurd (ground (arith, v.size, ap length e))))
        (λ some_left.
          let here : ch.prefetch_index < length ch.prefetch = ground (arith, v.buffer) in
          let out = option_list (get_elem? ch.prefetch ch.prefetch_index) in
          absurd (
            omega (
              arith,
              len,
              get-length ch.prefetch ch.prefetch_index here,
              ap length (drop-get ch.prefetch ch.prefetch_index here),
              length-append out (drop (ch.prefetch_index + 1) ch.prefetch),
            )))

registered-IsValid :
    (c : ConcurrentQueue) (ch : Channel c) (r : WaitRegistration.WaitRegistration)
    → IsValid c ch
    → IsValid c (record ch { registration = r })
registered-IsValid c ch r v = record {
  size = v.size;
  fits = v.fits;
  index = v.index;
  buffer = v.buffer;
}

resume_nothing :
    (c : ConcurrentQueue) (a : Awaitable ℕ) (ch : Channel c)
    → IsValid c ch
    → contents c ch ≡ []
    → a.ready ≡ none
    → (await_resume c (try_recv c) a ch).0 ≡ timed_out
unfolding await_resume
resume_nothing c a ch v e unready = go a.ready unready a.waiter_state
  where
    receive_nothing :
        (r : WaitRegistration.WaitRegistration)
        → (try_recv c (record ch { registration = r })).0 ≡ none
    receive_nothing r =
        ap (λ (x : Option ℕ × Channel c). x.0)
          (try_recv_empty c (record ch { registration = r }) (registered-IsValid c ch r v) e)

    go :
        (ready : Option ℕ)
        → ready ≡ none
        → (waiter : Option ℕ)
        → (hand_over c (try_recv c) ready (forget_waiter c (try_recv c) waiter ch)).0 ≡ timed_out
    go (some x) h waiter = absurd (cc)
    go none h none = ap (outcome_of c (try_recv c)) (receive_nothing ch.registration)
    go none h (some task) = ap (outcome_of c (try_recv c)) (receive_nothing _)

-- A wake that finds a waiter and nothing to receive.
empty_wake :
    (c : ConcurrentQueue) (prev_size task : ℕ) (a : Awaitable ℕ) (ch : Channel c)
    → IsValid c ch
    → contents c ch ≡ []
    → ch.registration.waiter ≡ some task
    → a.ready ≡ none
    → let (woken, ch') = wake_if_needed c prev_size ch in
      (woken ≡ some task) × ((await_resume c (try_recv c) a ch').0 ≡ timed_out)
unfolding wake_if_needed WaitRegistration.has_waiter WaitRegistration.consume_wake
empty_wake c prev_size task a ch v e waits unready =
    if_elim
      (λ (r : Option ℕ × Channel c).
        (r.0 ≡ some task) × ((await_resume c (try_recv c) a r.1).0 ≡ timed_out))
      (prev_size == 0 || is_some ch.registration.waiter)
      (λ _. (waits, resume_nothing c a _ (registered-IsValid c ch _ v) e unready))
      (λ silent. absurd (ground (arith, ap is_some waits)))

-- The awaitable that recv returns.
abbrev pub fresh : Awaitable ℕ
fresh = record { waiter_state = none; ready = none }

abbrev suspended_on : ℕ → Awaitable ℕ
suspended_on task = record { waiter_state = some task; ready = none }

await_ready_empty :
    (c : ConcurrentQueue) (ch : Channel c)
    → IsValid c ch
    → contents c ch ≡ []
    → await_ready c (try_recv c) fresh ch ≡ (false, fresh, ch)
unfolding await_ready
await_ready_empty c ch v e =
    ap (λ (x : Option ℕ × Channel c). (is_some x.0, record fresh { ready = x.0 }, x.1))
      (try_recv_empty c ch v e)

await_suspend_empty :
    (c : ConcurrentQueue) (task : ℕ) (ch : Channel c)
    → IsValid c ch
    → contents c ch ≡ []
    → await_suspend c (try_recv c) task fresh ch
      ≡ (true, suspended_on task, publish_waiter c (try_recv c) task ch)
unfolding await_suspend
await_suspend_empty c task ch v e =
    let once = try_recv_empty c ch v e in
    let ch1 = publish_waiter c (try_recv c) task ch in
    let twice : try_recv c ch1 ≡ (none, ch1) =
      try_recv_empty c ch1 (registered-IsValid c ch _ v) e in
    rw (once, twice) refl

-- After a value was counted and put into an empty channel and received again, the channel is empty.
taken_at_once :
    (c : ConcurrentQueue) (x : ℕ) (ch : Channel c)
    → IsValid c ch
    → contents c ch ≡ []
    → (c.enqueue ch.queue x).0 ≡ true
    → let (got, ch2) = try_recv c (counted_enqueue c x ch).2 in
      is_some got ≡ true → IsValid c ch2 × (contents c ch2 ≡ [])
unfolding counted_enqueue
taken_at_once c x ch v e taken got =
    let ch1 = (counted_enqueue c x ch).2 in
    let front = drop ch.prefetch_index ch.prefetch in
    let before : length front + length (c.items ch.queue) ≡ 0 =
      sym (length-append front (c.items ch.queue)) ∙ ap length e in
    let one : length (c.items ch1.queue) ≡ 1 =
      ground (arith, c.length-enqueue x ch.queue, before) in
    let t = try_recv-Took c (unordered c) ch1 (record {
      size =
          omega (arith, v.size, ap length e, before, one, length-append front (c.items ch1.queue));
      fits = omega (arith, v.size, ap length e);
      index = v.index;
      buffer = v.buffer;
    }) in
    let some_one : length (option_list (try_recv c ch1).0) ≡ 1 = one_value (try_recv c ch1).0 got in
    (
      t.valid,
      nil_of_length _ (omega (arith, t.counted, t.valid.size, some_one, v.size, ap length e)),
    )
  where
    one_value : (out : Option ℕ) → is_some out ≡ true → length (option_list out) ≡ 1
    one_value none h = absurd (cc)
    one_value (some y) h = refl

-- A sender counts and enqueues a value in an empty channel and has not woken anybody yet. The receiver
-- takes that value, and a second recv finds the channel empty and suspends. Now the sender's wake
-- comes: it wakes the receiver, which, though no timer is set, is told that its wait has timed out.
-- It is assumed that the queue takes the value over, and that the receiver's first dequeue finds it.
pub late_wake_times_out :
    (c : ConcurrentQueue) (x task : ℕ) (ch : Channel c)
    → IsValid c ch
    → contents c ch ≡ []
    → (c.enqueue ch.queue x).0 ≡ true
    → is_some (try_recv c (counted_enqueue c x ch).2).0 ≡ true
    → let (taken, prev_size, ch1) = counted_enqueue c x ch in
      let (got, ch2) = try_recv c ch1 in
      let (now, a3, ch3) = await_ready c (try_recv c) fresh ch2 in
      let (suspended, a4, ch4) = await_suspend c (try_recv c) task a3 ch3 in
      let (woken, ch5) = wake_if_needed c prev_size ch4 in
      (now ≡ false)
      × (suspended ≡ true)
      × (woken ≡ some task)
      × ((await_resume c (try_recv c) a4 ch5).0 ≡ timed_out)
unfolding publish_waiter arm
late_wake_times_out c x task ch v e taken got =
    let (v2, e2) = taken_at_once c x ch v e taken got in
    let ch2 = (try_recv c (counted_enqueue c x ch).2).1 in
    let wakes =
      empty_wake c (counted_enqueue c x ch).1 task (suspended_on task)
        (publish_waiter c (try_recv c) task ch2) (registered-IsValid c ch2 _ v2) e2 refl refl in
    subst (λ r. Late r (await_suspend c (try_recv c) task r.1 r.2))
      (sym (await_ready_empty c ch2 v2 e2))
      (subst (Late (false, fresh, ch2)) (sym (await_suspend_empty c task ch2 v2 e2))
        (refl, refl, wakes.0, wakes.1))
  where
    Late : Bool × Awaitable ℕ × Channel c → Bool × Awaitable ℕ × Channel c → Type 0
    Late (now, a3, ch3) (suspended, a4, ch4) =
        let (woken, ch5) = wake_if_needed c (counted_enqueue c x ch).1 ch4 in
        (now ≡ false)
        × (suspended ≡ true)
        × (woken ≡ some task)
        × ((await_resume c (try_recv c) a4 ch5).0 ≡ timed_out)
