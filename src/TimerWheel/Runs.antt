-- ===== src/TimerWheel/Runs.antt =====
-- What push and tick of timer_manager.hpp do to the timers that hang in the wheels.
use galay_kernel.Prelude.{
  ℕ, zero, suc, ◌+◌, ◌-◌, ◌<◌, ◌≡◌, ◌⊎◌, inl, inr, refl, Bool, true, false, Option, none, some,
  List, [], ◌∷◌, arith, if_elim, word64, add64, sub64, ◌&&◌, leb, ltb, ◌==◌, option_list, ◌/◌,
}
use galay_kernel.TimerWheel
use galay_kernel.TimerWheel.{
  Manager, Timer, Level, wheel5, wheel_span, level_of, place, fire, expire, push, advance, walk,
  tick,
}
use galay_kernel.TimerWheel.Weight.{weigh, total, total-place, size-place}
use galay_kernel.TimerWheel.Keeps.{each, IsValid, Leaves, both, unmoved, advance-Leaves}

walk-Leaves :
    (clock : ℕ → Level → ℕ) (target rounds : ℕ) (m : Manager)
    → IsValid m
    → Leaves m (walk clock target rounds m)
unfolding walk
walk-Leaves clock target zero m v = unmoved (λ f. refl) refl v
walk-Leaves clock target (suc rounds) m v =
    if_elim (Leaves m) (leb m.current_tick target && ltb 0 m.size)
      (λ _. both (advance-Leaves clock m) (walk-Leaves clock target rounds (advance clock m)) v)
      (λ _. unmoved (λ f. refl) refl v)

-- The clock's hand takes timers out of the wheels and puts in none: each timer hung up before is
-- then in a slot, as often as before, or among those that were taken out, and the size has gone down
-- by their number, so that it still is the number of timers in the wheels.
pub tick-Leaves :
    (now : ℕ) (clock : ℕ → Level → ℕ) (later : ℕ) (m : Manager)
    → IsValid m
    → Leaves m (tick now clock later m)
unfolding tick total
tick-Leaves now clock later m v =
    if_elim (Leaves m) (m.size == 0) (λ _. unmoved (λ f. refl) refl v)
      (λ _.
        if_elim (Leaves m) (leb ((now - m.start_time) / m.tick_duration) m.current_tick)
          (λ _. unmoved (λ f. refl) refl v)
          (λ _.
            let target = (now - m.start_time) / m.tick_duration in
            let m' = walk clock target (suc target - m.current_tick) m in
            both (walk-Leaves clock target (suc target - m.current_tick) m)
              (λ w.
                if_elim (Leaves m') (m'.size == 0) (λ _. unmoved (λ f. refl) refl w)
                  (λ _. unmoved (λ f. refl) refl w))
              v))

-- What push does to the wheels.
pub record Pushed (timer : Option ℕ) (m : Manager) (result : Bool × Manager) : Type 0 where
  pub valid : IsValid result.1
  pub added : List ℕ
  pub once : (added ≡ []) ⊎ (added ≡ option_list timer)
  pub kept : (f : ℕ → ℕ) → total f result.1 ≡ weigh f added + total f m
  pub counted : result.1.size ≡ m.size + weigh each added
  pub refused : result.0 ≡ false → added ≡ []

not_hung :
    {m : Manager} (timer : Option ℕ) (ok : Bool) (x : Manager)
    → IsValid m
    → ((f : ℕ → ℕ) → total f x ≡ total f m)
    → x.size ≡ m.size
    → Pushed timer m (ok, x)
not_hung timer ok x v e size = record {
  valid = record {
    size = omega (arith, e each, v.size, size);
    countable = omega (arith, v.countable, size);
  };
  added = [];
  once = inl refl;
  kept = λ f. omega (arith, e f);
  counted = omega (arith, size);
  refused = λ _. refl;
}

hung :
    {m : Manager} (timer : ℕ) (level : Level) (at_tick : ℕ) (x : Manager)
    → IsValid m
    → m.size + 1 < word64
    → ((f : ℕ → ℕ) → total f x ≡ total f m)
    → x.size ≡ m.size
    → Pushed (some timer) m (
      true,
      record (place level at_tick timer x) { size = add64 (place level at_tick timer x).size 1 },
    )
unfolding total
hung timer level at_tick x v fresh e size = record {
  valid = record {
    size = omega (
      arith,
      e each,
      v.size,
      size,
      size-place level at_tick timer x,
      total-place each level at_tick timer x,
    );
    countable = omega (arith, v.countable, size, size-place level at_tick timer x);
  };
  added = timer ∷ [];
  once = inr refl;
  kept = λ f. omega (arith, e f, total-place f level at_tick timer x);
  counted = omega (arith, size, size-place level at_tick timer x);
  refused = λ q. cc;
}

hang_up-Pushed :
    {m : Manager} (now expire_time timer : ℕ) (x : Manager)
    → IsValid m
    → m.size + 1 < word64
    → ((f : ℕ → ℕ) → total f x ≡ total f m)
    → x.size ≡ m.size
    → Pushed (some timer) m (TimerWheel.hang_up now expire_time timer x)
unfolding TimerWheel.hang_up fire total
hang_up-Pushed {m} now expire_time timer x v fresh e size =
    if_elim (Pushed (some timer) m) (leb expire_time now)
      (λ _. not_hung (some timer) true (fire timer x) v e size)
      (λ _.
        let delay_ticks = sub64 (add64 (expire_time - now) x.tick_duration) 1 / x.tick_duration in
        let absolute_tick = add64 ((now - x.start_time) / x.tick_duration) delay_ticks in
        if_elim (Pushed (some timer) m) (leb (wheel_span wheel5) delay_ticks)
          (λ _. not_hung (some timer) false x v e size)
          (λ _. hung timer (level_of delay_ticks) absolute_tick x v fresh e size))

-- Pushing a timer hangs it up in one slot, once, and counts it, or leaves the wheels as they were;
-- when push returns false it has hung up nothing.
pub push-Pushed :
    (reading now : ℕ) (timer : Option ℕ) (m : Manager)
    → IsValid m
    → m.size + 1 < word64
    → Pushed timer m (push reading now timer m)
unfolding push expire total
push-Pushed reading now none m v fresh = not_hung none false m v (λ f. refl) refl
push-Pushed reading now (some timer) m v fresh =
    if_elim
      (λ (x : Manager).
        Pushed (some timer) m (TimerWheel.hang_up now (expire reading timer m).0 timer x))
      (m.size == 0)
      (λ _.
        hang_up-Pushed now (expire reading timer m).0 timer
          (record (expire reading timer m).1 { start_time = now; current_tick = 0 }) v fresh
          (λ f. refl) refl)
      (λ _.
        hang_up-Pushed now (expire reading timer m).0 timer (expire reading timer m).1 v fresh
          (λ f. refl) refl)
