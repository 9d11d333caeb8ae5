-- ===== src/TimerWheel/Keeps.antt =====
-- No operation of timer_manager.hpp loses a timer or hangs one up twice, and the size is right.
use galay_kernel.TimerWheel.Weight.{size-place}
use galay_kernel.Prelude.{
  ℕ, ◌+◌, ◌-◌, ◌<◌, ◌≡◌, refl, List, [], ◌∷◌, ◌++◌, arith, if_elim, word64, add64, sub64, ◌||◌,
  ◌&&◌, leb, ltb, ◌==◌, ◌/◌, ◌%◌,
}
use galay_kernel.TimerWheel
use galay_kernel.TimerWheel.{
  Manager, Timer, Level, wheel1, wheel2, wheel3, wheel4, wheel5, wheel_size, wheel_span, slot_of,
  level_of, get, put, place, fire, expire, push, cascade_timer, cascade_timers, cascade_wheel,
  process_timers, process_wheel1, cascade_at, advance, walk, tick,
}
use galay_kernel.TimerWheel.Weight.{
  weigh, total, total-put, slot_of-lt, size-put, total-place, weigh-append,
}

-- One for each timer.
abbrev pub each : ℕ → ℕ
each timer = 1

-- The size counts what hangs in the wheels.
pub record IsValid (m : Manager) : Type 0 where
  pub size : m.size ≡ total each m
  pub countable : m.size < word64

-- The timers `gone` have left, those of `added` came, all others are where they were or in another
-- slot, and `size` has gone down by the number of the former.
pub record Moves (added gone : List ℕ) (m m' : Manager) : Type 0 where
  pub kept : (f : ℕ → ℕ) → weigh f gone + total f m' ≡ weigh f added + total f m
  pub counted : m'.size + weigh each gone ≡ m.size

Moves-then :
    {a b : List ℕ} {m1 m2 m3 : Manager} (gone more : List ℕ)
    → Moves a gone m1 m2
    → Moves b more m2 m3
    → Moves (a ++ b) (gone ++ more) m1 m3
Moves-then {a} {b} gone more p q = record {
  kept = λ f. omega (arith, p.kept f, q.kept f, weigh-append f a b, weigh-append f gone more);
  counted = omega (arith, p.counted, q.counted, weigh-append each gone more);
}

-- Nothing but the wheels and the size matters.
Moves-same :
    {m m' : Manager} → ((f : ℕ → ℕ) → total f m' ≡ total f m) → m'.size ≡ m.size → Moves [] [] m m'
Moves-same e size = record { kept = λ f. omega (arith, e f); counted = omega (arith, size) }

-- A timer that was taken out of its slot is dropped, and counted off.
dropped :
    {m : Manager} (timer : ℕ) (x : Manager)
    → 0 < m.size
    → m.size < word64
    → ((f : ℕ → ℕ) → total f x ≡ total f m)
    → x.size ≡ m.size
    → Moves (timer ∷ []) (timer ∷ []) m (record x { size = sub64 x.size 1 })
unfolding total
dropped timer x more fresh e size = record {
  kept = λ f. omega (arith, e f);
  counted = omega (arith, size);
}

-- It is put into another slot.
placed :
    {m : Manager} (timer : ℕ) (level : Level) (tick : ℕ) (x : Manager)
    → ((f : ℕ → ℕ) → total f x ≡ total f m)
    → x.size ≡ m.size
    → Moves (timer ∷ []) [] m (place level tick timer x)
placed timer level tick x e size = record {
  kept = λ f. omega (arith, e f, total-place f level tick timer x);
  counted = omega (arith, size-place level tick timer x, size);
}

cascade_timer-Moves :
    (now reading timer : ℕ) (m : Manager)
    → 0 < m.size
    → m.size < word64
    → (gone : List ℕ) × Moves (timer ∷ []) gone m (cascade_timer now reading timer m)
unfolding cascade_timer fire expire total
cascade_timer-Moves now reading timer m more fresh =
    if_elim Good ((m.timers timer).done || (m.timers timer).cancelled)
      (λ _. (timer ∷ [], dropped timer m more fresh (λ f. refl) refl))
      (λ _.
        if_elim Good (leb (expire reading timer m).0 now)
          (λ _. (
            timer ∷ [],
            dropped timer (fire timer (expire reading timer m).1) more fresh (λ f. refl) refl,
          ))
          (λ _.
            if_elim Good (((expire reading timer m).0 - now) / m.tick_duration == 0)
              (λ _. (
                timer ∷ [],
                dropped timer (fire timer (expire reading timer m).1) more fresh (λ f. refl) refl,
              ))
              (λ _.
                if_elim Good
                  (leb (wheel_span wheel5) (((expire reading timer m).0 - now) / m.tick_duration))
                  (λ _. (
                    timer ∷ [],
                    dropped timer (expire reading timer m).1 more fresh (λ f. refl) refl,
                  ))
                  (λ _. (
                    [],
                    placed timer (level_of (((expire reading timer m).0 - now) / m.tick_duration))
                        (add64 m.current_tick
                          (((expire reading timer m).0 - now) / m.tick_duration))
                        (expire reading timer m).1 (λ f. refl) refl,
                  )))))
  where
    Good : Manager → Type 0
    Good m' = (gone : List ℕ) × Moves (timer ∷ []) gone m m'

-- What is in the hand and in the wheels is what `size` counts.
abbrev Holds : List ℕ → Manager → Type 0
Holds xs m = (m.size ≡ weigh each xs + total each m) × (m.size < word64)

Moves-Holds :
    {a : List ℕ} (b : List ℕ) {m m' : Manager} (gone : List ℕ)
    → m.size ≡ weigh each a + weigh each b + total each m
    → m.size < word64
    → Moves a gone m m'
    → Holds b m'
Moves-Holds {a} b gone size fresh p =
    (omega (arith, size, p.counted, p.kept each), omega (arith, fresh, p.counted))

cascade_timers-Moves :
    (now reading : ℕ) (xs : List ℕ) (m : Manager)
    → Holds xs m
    → (gone : List ℕ) × Moves xs gone m (cascade_timers now reading xs m)
unfolding cascade_timers
cascade_timers-Moves now reading [] m h = ([], Moves-same (λ f. refl) refl)
cascade_timers-Moves now reading (x ∷ xs) m h =
    let (gone, p) = cascade_timer-Moves now reading x m (omega (arith, h.0)) h.1 in
    let (more, q) =
      cascade_timers-Moves now reading xs (cascade_timer now reading x m)
        (Moves-Holds xs gone (omega (arith, h.0)) h.1 p) in
    (gone ++ more, Moves-then gone more p q)

process_timers-Moves :
    (xs : List ℕ) (m : Manager) → Holds xs m → Moves xs xs m (TimerWheel.process_timers xs m)
unfolding TimerWheel.process_timers fire total
process_timers-Moves [] m h = Moves-same (λ f. refl) refl
process_timers-Moves (x ∷ xs) m h =
    let p = dropped {m = m} x (fire x m) (omega (arith, h.0)) h.1 (λ f. refl) refl in
    let q =
      process_timers-Moves xs (record (fire x m) { size = sub64 m.size 1 })
        (Moves-Holds xs (x ∷ []) (omega (arith, h.0)) h.1 p) in
    Moves-then (x ∷ []) xs p q

-- A slot is emptied into the hand.
emptied :
    {m : Manager} (level : Level)
    → IsValid m
    → Holds
        (get m level (slot_of level m.current_tick))
        (put m level (slot_of level m.current_tick) [])
emptied {m} level v =
    let i = slot_of level m.current_tick in
    (
      omega (
        arith,
        v.size,
        size-put m level i [],
        total-put each m level i [] (slot_of-lt level m.current_tick),
      ),
      omega (arith, v.countable, size-put m level i []),
    )

refilled :
    {m m' : Manager} (level : Level) (gone : List ℕ)
    → Moves
        (get m level (slot_of level m.current_tick))
        gone
        (put m level (slot_of level m.current_tick) [])
        m'
    → Moves [] gone m m'
refilled {m} {m'} level gone p =
    let i = slot_of level m.current_tick in
    record {
      kept =
          λ f. omega (arith, p.kept f, total-put f m level i [] (slot_of-lt level m.current_tick));
      counted = omega (arith, p.counted, size-put m level i []);
    }

Moves-IsValid : {m m' : Manager} (gone : List ℕ) → IsValid m → Moves [] gone m m' → IsValid m'
Moves-IsValid gone v p = record {
  size = omega (arith, v.size, p.counted, p.kept each);
  countable = omega (arith, v.countable, p.counted);
}

cascade_at-Moves :
    (span : ℕ) (level : Level) (now : ℕ) (m : Manager)
    → IsValid m
    → (gone : List ℕ) × Moves [] gone m (cascade_at span level now m)
unfolding cascade_at cascade_wheel
cascade_at-Moves span level now m v =
    if_elim (λ x. (gone : List ℕ) × Moves [] gone m x)
      ((m.current_tick % span == 0) && ltb 0 m.current_tick)
      (λ _.
        let i = slot_of level m.current_tick in
        let (gone, p) =
          cascade_timers-Moves now now (get m level i) (put m level i []) (emptied level v) in
        (gone, refilled level gone p))
      (λ _. ([], Moves-same (λ f. refl) refl))

process_wheel1-Moves :
    (m : Manager) → IsValid m → (gone : List ℕ) × Moves [] gone m (process_wheel1 m)
unfolding process_wheel1
process_wheel1-Moves m v =
    let i = slot_of wheel1 m.current_tick in
    (
      get m wheel1 i,
      refilled wheel1 (get m wheel1 i)
          (process_timers-Moves (get m wheel1 i) (put m wheel1 i []) (emptied wheel1 v)),
    )

-- A call that takes timers out of the wheels and adds none.
abbrev pub Leaves : Manager → Manager → Type 0
Leaves m m' = (gone : List ℕ) × Moves [] gone m m'

pub both :
    {m1 m2 m3 : Manager}
    → (IsValid m1 → Leaves m1 m2)
    → (IsValid m2 → Leaves m2 m3)
    → IsValid m1
    → Leaves m1 m3
both p q v =
    let (gone, a) = p v in
    let (more, b) = q (Moves-IsValid gone v a) in (gone ++ more, Moves-then gone more a b)

pub unmoved :
    {m m' : Manager}
    → ((f : ℕ → ℕ) → total f m' ≡ total f m)
    → m'.size ≡ m.size
    → IsValid m
    → Leaves m m'
unmoved e size v = ([], Moves-same e size)

pub advance-Leaves : (clock : ℕ → Level → ℕ) (m : Manager) → IsValid m → Leaves m (advance clock m)
unfolding advance total
advance-Leaves clock m =
    let t = m.current_tick in
    let m2 = cascade_at (wheel_span wheel1) wheel2 (clock t wheel2) m in
    let m3 = cascade_at (wheel_span wheel2) wheel3 (clock t wheel3) m2 in
    let m4 = cascade_at (wheel_span wheel3) wheel4 (clock t wheel4) m3 in
    let m5 = cascade_at (wheel_span wheel4) wheel5 (clock t wheel5) m4 in
    both (cascade_at-Moves 256 wheel2 (clock t wheel2) m) (
      both (cascade_at-Moves 16384 wheel3 (clock t wheel3) m2) (
        both (cascade_at-Moves 1048576 wheel4 (clock t wheel4) m3) (
          both (cascade_at-Moves 67108864 wheel5 (clock t wheel5) m4)
            (both (process_wheel1-Moves m5) (unmoved (λ f. refl) refl)))))
