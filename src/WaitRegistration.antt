-- ===== src/WaitRegistration.antt =====
-- galay-kernel/kernel/wait_registration.h: the address of the one coroutine that waits. A null
-- pointer is `none`. Each member is one or two atomic accesses; the calls run one after the other
-- here. `m_generation` wraps at 64 bits.
pub mod Uses
mod Tests
use galay_kernel.Prelude.{
  ℕ, Bool, true, false, Option, none, some, ◌==◌, if◌then◌else◌, is_some, add64,
}

pub record WaitRegistration : Type 0 where
  pub waiter : Option ℕ
  pub generation : ℕ

unfoldable pub init : WaitRegistration
init = record { waiter = none; generation = 0 }

unfoldable pub arm : Option ℕ → WaitRegistration → Bool × WaitRegistration
arm none r = (false, r)
arm (some address) r = (true, record { waiter = some address; generation = add64 r.generation 1 })

-- The compare-exchange of `m_waiter` from `address` to null.
unfoldable pub clear_if : ℕ → Option ℕ → WaitRegistration → Bool × WaitRegistration
clear_if address none r = (false, r)
clear_if address (some waiter) r =
    if waiter == address then (true, record r { waiter = none }) else (false, r)

unfoldable pub clear : Option ℕ → WaitRegistration → Bool × WaitRegistration
unfolding clear_if
clear none r = (false, r)
clear (some address) r = clear_if address r.waiter r

unfoldable pub consume_wake : WaitRegistration → Option ℕ × WaitRegistration
consume_wake r = (r.waiter, record r { waiter = none })

unfoldable pub has_waiter : WaitRegistration → Bool
has_waiter r = is_some r.waiter
