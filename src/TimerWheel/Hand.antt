-- ===== src/TimerWheel/Hand.antt =====
-- The hand of timer_manager.hpp: only the end of a round moves it, and tick's loop ends.
use galay_kernel.Prelude.{
  ℕ, zero, suc, ◌+◌, ◌-◌, ◌<◌, ◌≤◌, ◌≡◌, ◌⊎◌, inl, inr, refl, ◌∙◌, List, [], ◌∷◌, ◌++◌, arith,
  if_elim, word64, add64, sub64, ◌&&◌, ◌||◌, leb, ltb, ◌==◌, ◌/◌, ◌%◌,
}
use galay_kernel.TimerWheel
use galay_kernel.TimerWheel.{
  Manager, Level, wheel1, wheel2, wheel3, wheel4, wheel5, wheel_span, slot_of, level_of, get, put,
  place, fire, expire, cascade_timer, cascade_timers, cascade_wheel, process_timers, process_wheel1,
  cascade_at, advance, walk, tick,
}

abbrev Still : Manager → Manager → Type 0
Still m m' = m'.current_tick ≡ m.current_tick

put-Still : (m : Manager) (level : Level) (i : ℕ) (xs : List ℕ) → Still m (put m level i xs)
put-Still m wheel1 i xs = refl
put-Still m wheel2 i xs = refl
put-Still m wheel3 i xs = refl
put-Still m wheel4 i xs = refl
put-Still m wheel5 i xs = refl

cascade_timer-Still :
    (now reading timer : ℕ) (m : Manager) → Still m (cascade_timer now reading timer m)
unfolding cascade_timer fire expire place
cascade_timer-Still now reading timer m =
    let ticks = ((expire reading timer m).0 - now) / m.tick_duration in
    let i = slot_of (level_of ticks) (add64 m.current_tick ticks) in
    let x = (expire reading timer m).1 in
    if_elim (Still m) ((m.timers timer).done || (m.timers timer).cancelled) (λ _. refl)
      (λ _.
        if_elim (Still m) (leb (expire reading timer m).0 now) (λ _. refl)
          (λ _.
            if_elim (Still m) (ticks == 0) (λ _. refl)
              (λ _.
                if_elim (Still m) (leb (wheel_span wheel5) ticks) (λ _. refl)
                  (λ _. put-Still x (level_of ticks) i (get x (level_of ticks) i ++ timer ∷ [])))))

cascade_timers-Still :
    (now reading : ℕ) (xs : List ℕ) (m : Manager) → Still m (cascade_timers now reading xs m)
unfolding cascade_timers
cascade_timers-Still now reading [] m = refl
cascade_timers-Still now reading (x ∷ xs) m =
    cascade_timers-Still now reading xs (cascade_timer now reading x m)
    ∙ cascade_timer-Still now reading x m

process_timers-Still : (xs : List ℕ) (m : Manager) → Still m (TimerWheel.process_timers xs m)
unfolding TimerWheel.process_timers fire
process_timers-Still [] m = refl
process_timers-Still (x ∷ xs) m =
    process_timers-Still xs (record (fire x m) { size = sub64 m.size 1 })

cascade_at-Still :
    (span : ℕ) (level : Level) (now : ℕ) (m : Manager) → Still m (cascade_at span level now m)
unfolding cascade_at cascade_wheel
cascade_at-Still span level now m =
    let i = slot_of level m.current_tick in
    if_elim (Still m) ((m.current_tick % span == 0) && ltb 0 m.current_tick)
      (λ _.
        cascade_timers-Still now now (get m level i) (put m level i []) ∙ put-Still m level i [])
      (λ _. refl)

process_wheel1-Still : (m : Manager) → Still m (process_wheel1 m)
unfolding process_wheel1
process_wheel1-Still m =
    let i = slot_of wheel1 m.current_tick in
    process_timers-Still (get m wheel1 i) (put m wheel1 i []) ∙ put-Still m wheel1 i []

-- A round moves the hand by one.
hand-advance :
    (clock : ℕ → Level → ℕ) (m : Manager)
    → m.current_tick + 1 < word64
    → (advance clock m).current_tick ≡ m.current_tick + 1
unfolding advance
hand-advance clock m fresh =
    let t = m.current_tick in
    let m2 = cascade_at (wheel_span wheel1) wheel2 (clock t wheel2) m in
    let m3 = cascade_at (wheel_span wheel2) wheel3 (clock t wheel3) m2 in
    let m4 = cascade_at (wheel_span wheel3) wheel4 (clock t wheel4) m3 in
    let m5 = cascade_at (wheel_span wheel4) wheel5 (clock t wheel5) m4 in
    let still : Still m (process_wheel1 m5) =
      process_wheel1-Still m5
      ∙ cascade_at-Still 67108864 wheel5 (clock t wheel5) m4
      ∙ cascade_at-Still 1048576 wheel4 (clock t wheel4) m3
      ∙ cascade_at-Still 16384 wheel3 (clock t wheel3) m2
      ∙ cascade_at-Still 256 wheel2 (clock t wheel2) m in
    omega (arith, still)

-- The loop of tick has enough rounds: after them the hand is past the target, or no timer is left.
pub walk_ends :
    (clock : ℕ → Level → ℕ) (target rounds : ℕ) (m : Manager)
    → target + 2 < word64
    → suc target ≤ m.current_tick + rounds
    → let m' = walk clock target rounds m in (target < m'.current_tick) ⊎ (m'.size ≡ 0)
unfolding walk
walk_ends clock target zero m fresh enough = inl (omega arith)
walk_ends clock target (suc rounds) m fresh enough =
    if_elim (λ (x : Manager). (target < x.current_tick) ⊎ (x.size ≡ 0))
      (leb m.current_tick target && ltb 0 m.size)
      (λ go.
        walk_ends clock target rounds (advance clock m) fresh
          (ground (arith, hand-advance clock m (ground arith))))
      (λ stop. ground arith)

-- After tick the hand is not behind the tick that the clock shows, which is below 2^64 - 2, or no timer
-- hangs in the wheels.
pub tick_catches_up :
    (now : ℕ) (clock : ℕ → Level → ℕ) (later : ℕ) (m : Manager)
    → (now - m.start_time) / m.tick_duration + 2 < word64
    → let m' = tick now clock later m in
      ((now - m.start_time) / m.tick_duration ≤ m'.current_tick) ⊎ (m'.size ≡ 0)
unfolding tick
tick_catches_up now clock later m fresh =
    let target = (now - m.start_time) / m.tick_duration in
    let Caught : Manager → Type 0 = λ x. (target ≤ x.current_tick) ⊎ (x.size ≡ 0) in
    if_elim Caught (m.size == 0) (λ e. inr (ground arith))
      (λ _.
        if_elim Caught (leb target m.current_tick) (λ e. inl (ground arith))
          (λ behind.
            let m' = walk clock target (suc target - m.current_tick) m in
            let ends =
              walk_ends clock target (suc target - m.current_tick) m fresh (ground arith) in
            if_elim Caught (m'.size == 0) (λ e. inr (ground arith)) (λ e. ground (arith, ends))))
