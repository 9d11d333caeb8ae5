-- ===== src/StateMachine/Backends.antt =====
-- The two kinds of reactors drive a StateMachineAwaitable in the same way.
use galay_kernel.Prelude.{
  ℕ, zero, suc, ◌≤◌, ◌≡◌, refl, sym, ◌∙◌, ap, true, not, some, if_elim, arith,
}
use galay_kernel.StateMachine.{
  Awaitable, Progress, need_wait, completed, param_invalid, pump, clear_active_task,
}
use galay_kernel.StateMachine.Actions.{Machine}
use galay_kernel.StateMachine.Events.{
  Io, Asked, not_done, handed_over, no_kind, ask, after_asking, after_pump, uring_prepare,
  uring_event, prepare_rounds,
}
use galay_kernel.StateMachine.Runs.{AskedSound, ask-AskedSound}
use galay_kernel.StateMachine.Settles.{IsValid, Sound, Answered, pump-Sound}

module _ {R World : Type 0} (io : Io World) (m : Machine R) where
  -- An event comes only to an awaitable that waits.
  abbrev pub uring_next : Progress × Awaitable m × World → Progress × Awaitable m × World
  uring_next (need_wait, a, w) = uring_event io m a w
  uring_next (completed, a, w) = (completed, a, w)

  abbrev pub uring_events : ℕ → Progress × Awaitable m × World → Progress × Awaitable m × World
  uring_events zero r = r
  uring_events (suc k) r = uring_events k (uring_next r)

  -- `r` is what some events lead to from `from`, or the cap of `count` rounds was reached.
  pub data Follows (count : ℕ) (from r : Progress × Awaitable m × World) : Type 0 where
    reaches : (k : ℕ) → k ≤ count → r ≡ uring_events k from → Follows count from r
    capped :
        r.0 ≡ completed
        → r.1.error ≡ some param_invalid
        → r.2 ≡ (uring_events count from).2
        → Follows count from r

  active-event :
      (a : Awaitable m) (w : World)
      → a.has_active_task ≡ true
      → uring_event io m a w ≡ after_asking io m (uring_prepare io m) a (ask io m a.active_kind a w)
  unfolding uring_event
  active-event a w active =
      if_elim
        (λ (r : Progress × Awaitable m × World).
          r ≡ after_asking io m (uring_prepare io m) a (ask io m a.active_kind a w))
        (not a.has_active_task) (λ gone. absurd (ground (arith))) (λ _. refl)

  later-Follows :
      (count : ℕ) (from from' r : Progress × Awaitable m × World)
      → uring_next from ≡ from'
      → Follows count from' r
      → Follows (suc count) from r
  later-Follows count from from' r e (reaches k few there) =
      reaches (suc k) (omega arith) (there ∙ ap (uring_events k) (sym e))
  later-Follows count from from' r e (capped over error same_world) =
      capped over error (same_world ∙ ap (λ x. (uring_events count x).2) (sym e))

  asked-Follows :
      (count : ℕ) (a : Awaitable m) (w : World)
      → ((b : Awaitable m) (w' : World)
          → IsValid b
          → Follows count (uring_prepare io m b w') (prepare_rounds io m count b w'))
      → (asked : Asked m × World) → AskedSound io m asked.0
      → uring_event io m a w ≡ after_asking io m (uring_prepare io m) a asked
      → Follows
          (suc count)
          (need_wait, a, w)
          (after_asking io m (prepare_rounds io m count) a asked)
  unfolding after_asking AskedSound
  asked-Follows count a w ih (not_done, w') fine e = reaches 1 (omega arith) (sym e)
  asked-Follows count a w ih (no_kind, w') fine e = reaches 1 (omega arith) (sym e)
  asked-Follows count a w ih (handed_over b, w') fine e =
      later-Follows count (need_wait, a, w) (uring_prepare io m b w') _ e (ih b w' fine)

  pumped-Follows :
      (count : ℕ) (w : World)
      → ((b : Awaitable m) (w' : World)
          → IsValid b
          → Follows count (uring_prepare io m b w') (prepare_rounds io m count b w'))
      → (pumped : Progress × Awaitable m) → Sound pumped.0 pumped.1
      → Follows
          (suc count)
          (pumped.0, pumped.1, w)
          (after_pump io m (prepare_rounds io m count) w pumped)
  unfolding after_pump Answered
  pumped-Follows count w ih (completed, b) s = reaches 0 (omega arith) refl
  pumped-Follows count w ih (need_wait, b) s =
      if_elim (Follows (suc count) (need_wait, b, w)) (not b.has_active_task)
        (λ gone. absurd (ground (arith, s.answered)))
        (λ _.
          asked-Follows count b w ih (ask io m b.active_kind b w)
            (ask-AskedSound io m b w s.valid s.answered) (active-event b w s.answered))

  -- The loop that tries the operations at once, for reactors that report readiness, leaves the
  -- awaitable, the machine and the system as they are when io_uring reports the same completions one
  -- by one; or all of its rounds have ended in a completion, and then it ends with kParamInvalid,
  -- having asked the system for nothing more.
  pub prepare_rounds-Follows :
      (count : ℕ) (a : Awaitable m) (w : World)
      → IsValid a
      → Follows count (uring_prepare io m a w) (prepare_rounds io m count a w)
  unfolding prepare_rounds uring_prepare clear_active_task
  prepare_rounds-Follows zero a w v = capped refl refl refl
  prepare_rounds-Follows (suc count) a w v =
      pumped-Follows count w (prepare_rounds-Follows count) (pump m a) (pump-Sound a v)
