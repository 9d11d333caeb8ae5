-- ===== src/WaitRegistration/Uses.antt =====
-- Every registration of wait_registration.h is used up at most once.
use galay_kernel.Prelude.{
  ℕ, ◌+◌, ◌≤◌, ◌≡◌, refl, Option, none, some, List, [], ◌∷◌, arith, if◌then◌else◌, same,
}
use galay_kernel.WaitRegistration
use galay_kernel.WaitRegistration.{WaitRegistration, arm, clear, consume_wake}

pub data Op : Type 0 where
  arms : (address : Option ℕ) → Op
  clears : (address : Option ℕ) → Op
  consumes : Op

-- One for the address asked about.
abbrev pub is_it : ℕ → Option ℕ → ℕ
is_it a none = 0
is_it a (some address) = same address a

-- After a call: how often it armed `a`, and how often it took `a` out, by clear or consumeWake.
abbrev pub step : ℕ → Op → WaitRegistration → ℕ × ℕ × WaitRegistration
step a (arms address) r = let (ok, r') = arm address r in (is_it a address, 0, r')
step a (clears address) r =
    let (ok, r') = clear address r in (0, if ok then is_it a address else 0, r')
step a consumes r = let (out, r') = consume_wake r in (0, is_it a out, r')

abbrev pub run : ℕ → List Op → WaitRegistration → ℕ × ℕ × WaitRegistration
run a [] r = (0, 0, r)
run a (op ∷ ops) r =
    let (armed, used, r') = step a op r in
    let (armed', used', r'') = run a ops r' in (armed + armed', used + used', r'')

clear-used :
    (a address : ℕ) (waiter : Option ℕ) (r : WaitRegistration)
    → r.waiter ≡ waiter
    → let (ok, r') = WaitRegistration.clear_if address waiter r in
      (if ok then same address a else 0) + is_it a r'.waiter ≡ is_it a waiter
unfolding WaitRegistration.clear_if
clear-used a address none r e = ground (arith, e)
clear-used a address (some waiter) r e = ground (arith, e)

step-used :
    (a : ℕ) (op : Op) (r : WaitRegistration)
    → let (armed, used, r') = step a op r in used + is_it a r'.waiter ≤ armed + is_it a r.waiter
unfolding arm clear consume_wake
step-used a (arms none) r = omega arith
step-used a (arms (some address)) r = omega arith
step-used a (clears none) r = omega arith
step-used a (clears (some address)) r = omega (arith, clear-used a address r.waiter r refl)
step-used a consumes r = omega arith

-- In every sequence of calls an address is taken out, by a wake or by a successful clear, no more
-- often than it was armed, what is still registered counted in.
pub run-used :
    (a : ℕ) (ops : List Op) (r : WaitRegistration)
    → let (armed, used, r') = run a ops r in used + is_it a r'.waiter ≤ armed + is_it a r.waiter
run-used a [] r = omega arith
run-used a (op ∷ ops) r = omega (arith, step-used a op r, run-used a ops (step a op r).2)
