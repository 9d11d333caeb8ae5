-- ===== src/TimerWheel/Tests.antt =====
-- Runs of the wheels of timer_manager.hpp at concrete inputs, with ticks of ten nanoseconds.
use galay_kernel.Prelude.{ℕ, ◌-◌, ◌/◌, ◌≤◌, ◌≡◌, ◌⊎◌, refl, sym, some, [], ◌∷◌, arith, update}
use galay_kernel.TimerWheel
use galay_kernel.TimerWheel.{Manager, Timer, init, new_timer, push, tick, Level}
use galay_kernel.TimerWheel.Weight.{total-init}
use galay_kernel.TimerWheel.Keeps.{IsValid, Leaves, each}
use galay_kernel.TimerWheel.Runs.{Pushed, push-Pushed, tick-Leaves}
use galay_kernel.TimerWheel.Hand.{tick_catches_up}

abbrev wheels : Manager
wheels = init 10 1000 (λ _. new_timer 35)

abbrev clock : ℕ → Level → ℕ
clock tick level = 1060

wheels-IsValid : IsValid wheels
unfolding init
wheels-IsValid = record {
  size = sym (total-init each 10 1000 (λ _. new_timer 35));
  countable = omega arith;
}

Pushed-once : Pushed (some 3) wheels (push 1000 1000 (some 3) wheels)
unfolding init
Pushed-once = push-Pushed 1000 1000 (some 3) wheels wheels-IsValid (omega arith)

tick-Leaves_example :
    let m = (push 1000 1000 (some 3) wheels).1 in Leaves m (tick 1060 clock 1060 m)
tick-Leaves_example =
    tick-Leaves 1060 clock 1060 (push 1000 1000 (some 3) wheels).1 Pushed-once.valid

tick_catches_up_example :
    let m' = tick 1060 clock 1060 wheels in
    ((1060 - wheels.start_time) / 10 ≤ m'.current_tick) ⊎ (m'.size ≡ 0)
unfolding init
tick_catches_up_example = tick_catches_up 1060 clock 1060 wheels (omega arith)

-- Timer 1 expires after 35 ns and timer 2 after 2500.
abbrev delays : ℕ → Timer
delays = update (update (λ _. new_timer 0) 1 (new_timer 35)) 2 (new_timer 2500)

-- The hand is six ticks late when timer 2 is pushed, for tick 256: at the next tick its callback
-- runs, 2500 ns too early.
run-late_hand :
    let m1 = (push 1000 1000 (some 1) (init 10 1000 delays)).1 in
    let m2 = (push 1060 1060 (some 2) m1).1 in (tick 1060 clock 1060 m2).fired ≡ 1 ∷ 2 ∷ []
unfolding init push tick new_timer TimerWheel.handle_timeout TimerWheel.get_expire_time
    TimerWheel.hang_up TimerWheel.fire TimerWheel.expire TimerWheel.place TimerWheel.walk
    TimerWheel.advance TimerWheel.cascade_at TimerWheel.process_wheel1 TimerWheel.process_timers
run-late_hand = refl
