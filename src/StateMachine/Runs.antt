-- ===== src/StateMachine/Runs.antt =====
-- A StateMachineAwaitable through any events and timeouts, with io_uring and with the other reactors.
use galay_kernel.Prelude.{
  ℕ, zero, suc, ◌≡◌, refl, sym, ◌∙◌, ap, subst, Bool, true, false, not, ◌||◌, Option, none, some,
  List, [], ◌∷◌, is_some, if_elim, arith,
}
use galay_kernel.Error.{IoError}
use galay_kernel.StateMachine
use galay_kernel.StateMachine.{
  Awaitable, Progress, need_wait, completed, Kind, idle, reading, reading_v, writing, writing_v,
  connecting, Resumed, returned, failed, broken, init, pump, clear_active_task, mark_timeout,
  await_ready, await_resume, take_result, take_error,
}
use galay_kernel.StateMachine.Actions.{Machine}
use galay_kernel.Error.{Result, Done}
use galay_kernel.StateMachine.Events.{
  Io, Asked, not_done, handed_over, no_kind, ask, read_done, write_done, connect_done, after_asking,
  after_pump, uring_prepare, uring_event, prepare_rounds, prepare, event,
}
use galay_kernel.StateMachine.Settles.{
  Active, IsValid, Answered, Sound, moved-IsValid, cleared-IsValid, delivered-IsValid, pump-Sound,
  failed-Sound, timeout-Sound,
}

-- Which reactor the library is built for.
pub data Backend : Type 0 where
  io_uring : Backend
  readiness : Backend

pub data Call : Type 0 where
  submits : Call
  event_comes : Call
  timer_fires : Call

module _ {R World : Type 0} (io : Io World) (m : Machine R) where
  -- The awaitable, the system, and what was answered last.
  pub record Session : Type 0 where
    pub progress : Progress
    pub awaitable : Awaitable m
    pub world : World

  abbrev taken : Progress × Awaitable m × World → Session
  taken r = record { progress = r.0; awaitable = r.1; world = r.2 }

  abbrev pub step : Backend → Call → Session → Session
  step io_uring submits s = taken (uring_prepare io m s.awaitable s.world)
  step io_uring event_comes s = taken (uring_event io m s.awaitable s.world)
  step readiness submits s = taken (prepare io m s.awaitable s.world)
  step readiness event_comes s = taken (event io m s.awaitable s.world)
  step backend timer_fires s = record s {
    progress = completed;
    awaitable = mark_timeout m s.awaitable;
  }

  abbrev pub run : Backend → List Call → Session → Session
  run backend [] s = s
  run backend (call ∷ calls) s = run backend calls (step backend call s)

  unfoldable pub AskedSound : Asked m → Type 0
  AskedSound not_done = false ≡ false
  AskedSound (handed_over b) = IsValid b
  AskedSound no_kind = true ≡ false

  pub ask-AskedSound :
      (a : Awaitable m) (w : World)
      → IsValid a
      → a.has_active_task ≡ true
      → AskedSound (ask io m a.active_kind a w).0
  unfolding ask AskedSound read_done write_done connect_done Active
  ask-AskedSound a w v active = go a.active_kind v.task
    where
      read : (r : Option (Result ℕ)) → AskedSound (read_done io m a r)
      read none = refl
      read (some r) = moved-IsValid _ _ (cleared-IsValid a v)

      write : (r : Option (Result ℕ)) → AskedSound (write_done io m a r)
      write none = refl
      write (some r) = moved-IsValid _ _ (cleared-IsValid a v)

      connect : (r : Option (Result Done)) → AskedSound (connect_done io m a r)
      connect none = refl
      connect (some r) = delivered-IsValid _ _ (cleared-IsValid a v)

      go : (k : Kind) → Active k a → AskedSound (ask io m k a w).0
      go idle h = sym active ∙ h
      go reading h = read _
      go reading_v h = read _
      go writing h = write _
      go writing_v h = write _
      go connecting h = connect _

  Answers : Progress × Awaitable m × World → Type 0
  Answers r = Sound r.0 r.1

  asking-Answers :
      (next : Awaitable m → World → Progress × Awaitable m × World)
      → ((b : Awaitable m) (w : World) → IsValid b → Answers (next b w))
      → (a : Awaitable m) → IsValid a
      → a.has_active_task ≡ true
      → (asked : Asked m × World) → AskedSound asked.0
      → Answers (after_asking io m next a asked)
  unfolding after_asking Answers AskedSound Answered
  asking-Answers next h a v active (not_done, w) fine = record { valid = v; answered = active }
  asking-Answers next h a v active (handed_over b, w) fine = h b w fine
  asking-Answers next h a v active (no_kind, w) fine = absurd (cc)

  pumped-Answers :
      (next : Awaitable m → World → Progress × Awaitable m × World)
      → ((b : Awaitable m) (w : World) → IsValid b → Answers (next b w))
      → (w : World) (pumped : Progress × Awaitable m) → Sound pumped.0 pumped.1
      → Answers (after_pump io m next w pumped)
  unfolding after_pump Answers Answered
  pumped-Answers next h w (completed, b) s = s
  pumped-Answers next h w (need_wait, b) s =
      if_elim Answers (not b.has_active_task) (λ gone. absurd (ground (arith, s.answered)))
        (λ _.
          asking-Answers next h b s.valid s.answered (ask io m b.active_kind b w)
            (ask-AskedSound b w s.valid s.answered))

  prepare_rounds-Answers :
      (count : ℕ) (a : Awaitable m) (w : World)
      → IsValid a
      → Answers (prepare_rounds io m count a w)
  unfolding prepare_rounds Answers
  prepare_rounds-Answers zero a w v = failed-Sound StateMachine.param_invalid a v
  prepare_rounds-Answers (suc count) a w v =
      pumped-Answers (prepare_rounds io m count) (prepare_rounds-Answers count) w (pump m a)
        (pump-Sound a v)

  prepare-Answers : (a : Awaitable m) (w : World) → IsValid a → Answers (prepare io m a w)
  unfolding prepare
  prepare-Answers a w v = prepare_rounds-Answers StateMachine.inline_transition_cap a w v

  submits-Answers :
      (backend : Backend) (s : Session)
      → IsValid s.awaitable
      → let t = step backend submits s in Sound t.progress t.awaitable
  unfolding uring_prepare prepare Answers
  submits-Answers io_uring s v = pump-Sound s.awaitable v
  submits-Answers readiness s v = prepare-Answers s.awaitable s.world v

  event-Answers :
      (backend : Backend) (s : Session)
      → IsValid s.awaitable
      → let t = step backend event_comes s in Sound t.progress t.awaitable
  unfolding uring_event event uring_prepare prepare Answers
  event-Answers io_uring s v =
      if_elim Answers (not s.awaitable.has_active_task) (λ _. pump-Sound s.awaitable v)
        (λ active.
          asking-Answers (uring_prepare io m) (λ b w h. pump-Sound b h) s.awaitable v
            (ground (arith)) (ask io m s.awaitable.active_kind s.awaitable s.world)
            (ask-AskedSound s.awaitable s.world v (ground (arith))))
  event-Answers readiness s v =
      if_elim Answers (not s.awaitable.has_active_task) (λ _. prepare-Answers s.awaitable s.world v)
        (λ active.
          asking-Answers (prepare io m) prepare-Answers s.awaitable v (ground (arith))
            (ask io m s.awaitable.active_kind s.awaitable s.world)
            (ask-AskedSound s.awaitable s.world v (ground (arith))))

  step-Sound :
      (backend : Backend) (call : Call) (s : Session)
      → IsValid s.awaitable
      → let t = step backend call s in Sound t.progress t.awaitable
  step-Sound backend submits s v = submits-Answers backend s v
  step-Sound backend event_comes s v = event-Answers backend s v
  step-Sound backend timer_fires s v = timeout-Sound s.awaitable v

  run-Sound_from :
      (backend : Backend) (calls : List Call) (s : Session)
      → Sound s.progress s.awaitable
      → let t = run backend calls s in Sound t.progress t.awaitable
  run-Sound_from backend [] s h = h
  run-Sound_from backend (call ∷ calls) s h =
      run-Sound_from backend calls (step backend call s) (step-Sound backend call s h.valid)

  -- What the coroutine finds when it resumes.
  pub data Told (a : Awaitable m) : Type 0 where
    result : (r : R) → ((errno : ℕ) → await_resume m errno a ≡ returned r) → Told a
    error :
        (e : IoError)
        → a.error ≡ some e
        → ((errno : ℕ) → await_resume m errno a ≡ failed e)
        → Told a

  pub record Fate (s : Session) : Type 0 where
    pub valid : IsValid s.awaitable
    pub waits : s.progress ≡ need_wait → s.awaitable.has_active_task ≡ true
    pub told : s.progress ≡ completed → Told s.awaitable

  answered-Told : (a : Awaitable m) → IsValid a → (a.result_set || is_some a.error) ≡ true → Told a
  unfolding await_resume take_result take_error
  answered-Told a v answered = split a.result_set refl
    where
      with_result : a.result_set ≡ true → (r : Option R) → r ≡ a.result → Told a
      with_result got none e = absurd (cc (e, v.got got))
      with_result got (some r) e = result r (λ errno.
          if_elim (λ (x : Resumed R). x ≡ returned r) a.result_set (λ _. ap (take_result m) (sym e))
            (λ unset. absurd (cc)))

      with_error : a.result_set ≡ false → (e : Option IoError) → e ≡ a.error → Told a
      with_error unset none e = absurd (ground (arith, ap is_some e))
      with_error unset (some x) e = error x (sym e) (λ errno.
          if_elim (λ (y : Resumed R). y ≡ failed x) a.result_set (λ got. absurd (cc))
            (λ _. ap (take_error m errno) (sym e)))

      split : (set : Bool) → set ≡ a.result_set → Told a
      split true e = with_result (sym e) a.result refl
      split false e = with_error (sym e) a.error refl

  abbrev pub start : m.State → World → Session
  start machine world = record { progress = need_wait; awaitable = init m machine; world = world }

  pub init-IsValid : (machine : m.State) → IsValid (init m machine)
  unfolding init Active
  init-IsValid machine = record { task = refl; got = λ e. absurd (cc) }

  Sound-Fate : (s : Session) → Sound s.progress s.awaitable → Fate s
  unfolding Answered
  Sound-Fate s h = record {
    valid = h.valid;
    waits = λ e. subst (λ p. Answered p s.awaitable) e h.answered;
    told =
        λ e. answered-Told s.awaitable h.valid (subst (λ p. Answered p s.awaitable) e h.answered);
  }

  -- A state machine is submitted, and then events come and timers fire in any order, with either kind
  -- of reactor, whatever the machine asks for and the system answers. When the last call says to wait,
  -- one task is active, and if it is a recv or a send, its buffer is not null and has bytes left to
  -- transfer, or if it is a readv or a writev, it has an array of at least one buffer; when it says that
  -- the sequence is completed, the coroutine gets the machine's result or the error that was recorded,
  -- and never an empty result or the kNotReady of an awaitable without an outcome.
  pub run-Fate :
      (backend : Backend) (machine : m.State) (world : World) (calls : List Call)
      → Fate (run backend (submits ∷ calls) (start machine world))
  run-Fate backend machine world calls =
      Sound-Fate (run backend (submits ∷ calls) (start machine world)) (
        run-Sound_from backend calls (step backend submits (start machine world))
          (step-Sound backend submits (start machine world) (init-IsValid machine)))
