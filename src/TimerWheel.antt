-- ===== src/TimerWheel.antt =====
-- galay-kernel/common/timer_manager.hpp, class TimingWheelTimerManager: timers hung up in five
-- wheels of slots. A timer is a number; its state is in a store, since timers are shared. Readings
-- of the clock are arguments, in nanoseconds since its epoch. A vector of slots is a function of
-- the slot's index, `x >> k` is `/ 2 ^ k` and `x & (size - 1)` is `% size`. What a timer's callback
-- does is not modelled, only that it runs; a callback that calls the manager is left out.
mod Timers
unfoldable pub use Timers.*
pub mod Weight
pub mod Keeps
pub mod Runs
pub mod Hand
mod Tests
use galay_kernel.Prelude.{
  ℕ, zero, suc, ◌+◌, ◌-◌, ◌*◌, ◌/◌, ◌%◌, Bool, true, false, ◌||◌, ◌&&◌, Option, none, some, List,
  [], ◌∷◌, ◌++◌, ltb, leb, ◌==◌, if◌then◌else◌, update, add64, sub64,
}

pub data Level : Type 0 where
  wheel1 : Level
  wheel2 : Level
  wheel3 : Level
  wheel4 : Level
  wheel5 : Level

-- WHEEL1_SIZE to WHEEL5_SIZE.
abbrev pub wheel_size : Level → ℕ
wheel_size wheel1 = 256
wheel_size wheel2 = 64
wheel_size wheel3 = 64
wheel_size wheel4 = 64
wheel_size wheel5 = 64

-- WHEEL1_SPAN to WHEEL5_SPAN.
abbrev pub wheel_span : Level → ℕ
wheel_span wheel1 = 256
wheel_span wheel2 = 16384
wheel_span wheel3 = 1048576
wheel_span wheel4 = 67108864
wheel_span wheel5 = 4294967296

-- The slot of a tick: the tick shifted by 0, 8, 14, 20 or 26 bits.
abbrev pub slot_of : Level → ℕ → ℕ
slot_of wheel1 tick = tick % 256
slot_of wheel2 tick = (tick / 256) % 64
slot_of wheel3 tick = (tick / 16384) % 64
slot_of wheel4 tick = (tick / 1048576) % 64
slot_of wheel5 tick = (tick / 67108864) % 64

-- The wheel for a delay of so many ticks, below WHEEL5_SPAN.
abbrev pub level_of : ℕ → Level
level_of ticks =
    if ltb ticks (wheel_span wheel1)
    then wheel1
    else if ltb ticks (wheel_span wheel2)
    then wheel2
    else if ltb ticks (wheel_span wheel3)
    then wheel3
    else if ltb ticks (wheel_span wheel4)
    then wheel4
    else wheel5

pub record Manager : Type 0 where
  pub tick_duration : ℕ
  pub current_tick : ℕ
  pub slots1 : ℕ → List ℕ
  pub slots2 : ℕ → List ℕ
  pub slots3 : ℕ → List ℕ
  pub slots4 : ℕ → List ℕ
  pub slots5 : ℕ → List ℕ
  pub size : ℕ
  pub start_time : ℕ
  pub timers : ℕ → Timer  -- the timers' own state
  pub fired : List ℕ  -- whose callbacks have run, the latest first

pub init : ℕ → ℕ → (ℕ → Timer) → Manager
init tick_duration now timers = record {
  tick_duration = tick_duration;
  current_tick = 0;
  slots1 = λ _. [];
  slots2 = λ _. [];
  slots3 = λ _. [];
  slots4 = λ _. [];
  slots5 = λ _. [];
  size = 0;
  start_time = now;
  timers = timers;
  fired = [];
}

pub empty : Manager → Bool
empty m = m.size == 0

pub during : Manager → ℕ
during m = m.tick_duration

abbrev pub get : Manager → Level → ℕ → List ℕ
get m wheel1 = m.slots1
get m wheel2 = m.slots2
get m wheel3 = m.slots3
get m wheel4 = m.slots4
get m wheel5 = m.slots5

abbrev pub put : Manager → Level → ℕ → List ℕ → Manager
put m wheel1 i xs = record m { slots1 = update m.slots1 i xs }
put m wheel2 i xs = record m { slots2 = update m.slots2 i xs }
put m wheel3 i xs = record m { slots3 = update m.slots3 i xs }
put m wheel4 i xs = record m { slots4 = update m.slots4 i xs }
put m wheel5 i xs = record m { slots5 = update m.slots5 i xs }

-- The timer behind those in the slot of `tick`.
pub place : Level → ℕ → ℕ → Manager → Manager
place level tick timer m =
    put m level (slot_of level tick) (get m level (slot_of level tick) ++ timer ∷ [])

-- handleTimeout of the timer.
pub fire : ℕ → Manager → Manager
fire timer m =
    let (ran, t) = handle_timeout (m.timers timer) in
    record m { timers = update m.timers timer t; fired = if ran then timer ∷ m.fired else m.fired }

-- getExpireTime of the timer, which reads the clock if it has no expiry yet.
pub expire : ℕ → ℕ → Manager → ℕ × Manager
expire reading timer m =
    let (time, t) = get_expire_time reading (m.timers timer) in
    (time, record m { timers = update m.timers timer t })

-- push from its comparison of expiry and clock on.
pub hang_up : ℕ → ℕ → ℕ → Manager → Bool × Manager
unfolding place fire
hang_up now expire_time timer m =
    if leb expire_time now
    then (true, fire timer m)
    else (let delay_ticks = sub64 (add64 (expire_time - now) m.tick_duration) 1 / m.tick_duration in
        let absolute_tick = add64 ((now - m.start_time) / m.tick_duration) delay_ticks in
        if leb (wheel_span wheel5) delay_ticks
        then (false, m)
        else (let m' = place (level_of delay_ticks) absolute_tick timer m in
            (true, record m' { size = add64 m'.size 1 })))

-- `now` is the reading of push, `reading` that of getExpireTime.
pub push : ℕ → ℕ → Option ℕ → Manager → Bool × Manager
unfolding hang_up expire
push reading now none m = (false, m)
push reading now (some timer) m =
    let (expire_time, m') = expire reading timer m in
    hang_up now expire_time timer
      (if m'.size == 0 then record m' { start_time = now; current_tick = 0 } else m')

-- The body of the loop of cascadeSlot, with `nowNs` and the reading of getExpireTime.
pub cascade_timer : ℕ → ℕ → ℕ → Manager → Manager
unfolding place fire expire
cascade_timer now reading timer m =
    if (m.timers timer).done || (m.timers timer).cancelled
    then record m { size = sub64 m.size 1 }
    else (let (expire_time, m1) = expire reading timer m in
        if leb expire_time now
        then (let m2 = fire timer m1 in record m2 { size = sub64 m2.size 1 })
        else (let remaining_ticks = (expire_time - now) / m1.tick_duration in
            if remaining_ticks == 0
            then (let m2 = fire timer m1 in record m2 { size = sub64 m2.size 1 })
            else if leb (wheel_span wheel5) remaining_ticks
            then record m1 { size = sub64 m1.size 1 }
            else place (level_of remaining_ticks) (add64 m1.current_tick remaining_ticks) timer m1))

pub cascade_timers : ℕ → ℕ → List ℕ → Manager → Manager
unfolding cascade_timer
cascade_timers now reading [] m = m
cascade_timers now reading (timer ∷ timers) m =
    cascade_timers now reading timers (cascade_timer now reading timer m)

-- cascadeWheel2 to cascadeWheel5, each with its own reading of the clock.
pub cascade_wheel : Level → ℕ → Manager → Manager
unfolding cascade_timers
cascade_wheel level now m =
    let i = slot_of level m.current_tick in
    cascade_timers now now (get m level i) (put m level i [])

process_timers : List ℕ → Manager → Manager
unfolding fire
process_timers [] m = m
process_timers (timer ∷ timers) m =
    let m' = fire timer m in process_timers timers (record m' { size = sub64 m'.size 1 })

pub process_wheel1 : Manager → Manager
unfolding process_timers
process_wheel1 m =
    let i = slot_of wheel1 m.current_tick in process_timers (get m wheel1 i) (put m wheel1 i [])

-- Cascade if the tick is a multiple of the span of the wheel below.
pub cascade_at : ℕ → Level → ℕ → Manager → Manager
unfolding cascade_wheel
cascade_at span level now m =
    if (m.current_tick % span == 0) && ltb 0 m.current_tick then cascade_wheel level now m else m

-- One round of the loop of tick. `clock` gives the readings of the cascades at a tick.
pub advance : (ℕ → Level → ℕ) → Manager → Manager
unfolding cascade_at process_wheel1
advance clock m =
    let t = m.current_tick in
    let m2 = cascade_at (wheel_span wheel1) wheel2 (clock t wheel2) m in
    let m3 = cascade_at (wheel_span wheel2) wheel3 (clock t wheel3) m2 in
    let m4 = cascade_at (wheel_span wheel3) wheel4 (clock t wheel4) m3 in
    let m5 = cascade_at (wheel_span wheel4) wheel5 (clock t wheel5) m4 in
    let m6 = process_wheel1 m5 in record m6 { current_tick = add64 m6.current_tick 1 }

-- The loop, with `rounds` of fuel.
pub walk : (ℕ → Level → ℕ) → ℕ → ℕ → Manager → Manager
unfolding advance
walk clock target zero m = m
walk clock target (suc rounds) m =
    let rest = walk clock target rounds (advance clock m) in
    if leb m.current_tick target && ltb 0 m.size then rest else m

-- `now` is the reading of tick and `later` that of reset.
pub tick : ℕ → (ℕ → Level → ℕ) → ℕ → Manager → Manager
unfolding walk
tick now clock later m =
    if m.size == 0
    then m
    else (let target = (now - m.start_time) / m.tick_duration in
        if leb target m.current_tick
        then m
        else (let m' = walk clock target (suc target - m.current_tick) m in
            if m'.size == 0 then record m' { start_time = later; current_tick = 0 } else m'))
