-- ===== src/TimerWheel/Weight.antt =====
-- How many timers hang in the wheels, counted with any weight, and how a write to a slot changes it.
use galay_kernel.Prelude.{
  ℕ, zero, suc, ◌+◌, ◌≤◌, ◌<◌, ◌≡◌, ap, refl, List, [], ◌∷◌, ◌++◌, arith, update, if_elim, ◌==◌,
}
use galay_kernel.TimerWheel.{
  Manager, Timer, init, Level, wheel1, wheel2, wheel3, wheel4, wheel5, wheel_size, slot_of, get,
  put, place,
}

abbrev pub weigh : (ℕ → ℕ) → List ℕ → ℕ
weigh f [] = 0
weigh f (x ∷ xs) = f x + weigh f xs

-- The weight of the first `n` slots.
pub sum : (ℕ → ℕ) → ℕ → (ℕ → List ℕ) → ℕ
sum f zero slots = 0
sum f (suc n) slots = weigh f (slots n) + sum f n slots

unfoldable pub total : (ℕ → ℕ) → Manager → ℕ
total f m =
    sum f 256 m.slots1
    + sum f 64 m.slots2
    + sum f 64 m.slots3
    + sum f 64 m.slots4
    + sum f 64 m.slots5

pub weigh-append : (f : ℕ → ℕ) (xs ys : List ℕ) → weigh f (xs ++ ys) ≡ weigh f xs + weigh f ys
weigh-append f [] ys = omega arith
weigh-append f (x ∷ xs) ys = omega (arith, weigh-append f xs ys)

sum_below :
    (f : ℕ → ℕ) (n i : ℕ) (slots : ℕ → List ℕ) (xs : List ℕ)
    → n ≤ i
    → sum f n (update slots i xs) ≡ sum f n slots
unfolding sum
sum_below f zero i slots xs h = omega arith
sum_below f (suc n) i slots xs h =
    if_elim
      (λ (ys : List ℕ).
        weigh f ys + sum f n (update slots i xs) ≡ weigh f (slots n) + sum f n slots)
      (i == n) (λ e. absurd (ground arith))
      (λ _. omega (arith, sum_below f n i slots xs (omega arith)))

sum-update :
    (f : ℕ → ℕ) (n i : ℕ) (slots : ℕ → List ℕ) (xs : List ℕ)
    → i < n
    → sum f n (update slots i xs) + weigh f (slots i) ≡ sum f n slots + weigh f xs
unfolding sum
sum-update f zero i slots xs h = absurd (omega arith)
sum-update f (suc n) i slots xs h =
    if_elim
      (λ (ys : List ℕ).
        weigh f ys + sum f n (update slots i xs) + weigh f (slots i)
        ≡ weigh f (slots n) + sum f n slots + weigh f xs)
      (i == n)
      (λ e.
        let q : i ≡ n = ground arith in
        omega (arith, ap (λ k. weigh f (slots k)) q, sum_below f n i slots xs (omega arith)))
      (λ e. omega (arith, sum-update f n i slots xs (ground arith)))

-- A slot written: what it held is taken out of the weight and what it holds now is added.
pub total-put :
    (f : ℕ → ℕ) (m : Manager) (level : Level) (i : ℕ) (xs : List ℕ)
    → i < wheel_size level
    → total f (put m level i xs) + weigh f (get m level i) ≡ total f m + weigh f xs
unfolding total
total-put f m wheel1 i xs h = omega (arith, sum-update f 256 i m.slots1 xs h)
total-put f m wheel2 i xs h = omega (arith, sum-update f 64 i m.slots2 xs h)
total-put f m wheel3 i xs h = omega (arith, sum-update f 64 i m.slots3 xs h)
total-put f m wheel4 i xs h = omega (arith, sum-update f 64 i m.slots4 xs h)
total-put f m wheel5 i xs h = omega (arith, sum-update f 64 i m.slots5 xs h)

pub slot_of-lt : (level : Level) (tick : ℕ) → slot_of level tick < wheel_size level
slot_of-lt wheel1 tick = omega arith
slot_of-lt wheel2 tick = omega arith
slot_of-lt wheel3 tick = omega arith
slot_of-lt wheel4 tick = omega arith
slot_of-lt wheel5 tick = omega arith

pub size-put :
    (m : Manager) (level : Level) (i : ℕ) (xs : List ℕ) → (put m level i xs).size ≡ m.size
size-put m wheel1 i xs = refl
size-put m wheel2 i xs = refl
size-put m wheel3 i xs = refl
size-put m wheel4 i xs = refl
size-put m wheel5 i xs = refl

pub total-place :
    (f : ℕ → ℕ) (level : Level) (tick timer : ℕ) (m : Manager)
    → total f (place level tick timer m) ≡ total f m + f timer
unfolding place
total-place f level tick timer m =
    let i = slot_of level tick in
    omega (
      arith,
      total-put f m level i (get m level i ++ timer ∷ []) (slot_of-lt level tick),
      weigh-append f (get m level i) (timer ∷ []),
    )

sum-nothing : (f : ℕ → ℕ) (n : ℕ) → sum f n (λ _. []) ≡ 0
unfolding sum
sum-nothing f zero = omega arith
sum-nothing f (suc n) = omega (arith, sum-nothing f n)

-- Any weight of no timers is zero.
pub total-init :
    (f : ℕ → ℕ) (tick_duration now : ℕ) (timers : ℕ → Timer)
    → total f (init tick_duration now timers) ≡ 0
unfolding total init
total-init f tick_duration now timers = omega (arith, sum-nothing f 256, sum-nothing f 64)

pub size-place :
    (level : Level) (tick timer : ℕ) (m : Manager) → (place level tick timer m).size ≡ m.size
unfolding place
size-place level tick timer m =
    size-put m level (slot_of level tick) (get m level (slot_of level tick) ++ timer ∷ [])
