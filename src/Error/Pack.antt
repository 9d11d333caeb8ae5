-- ===== src/Error/Pack.antt =====
-- What goes into an IOError of error.cc comes out again.
use mathlib.Core.Path.{ap₂}
use galay_kernel.Prelude.{
  ℕ, ◌+◌, ◌*◌, ◌/◌, ◌%◌, ◌≤◌, ◌<◌, ◌≡◌, ◌↔◌, true, arith, word32, word64, ==_iff,
}
use galay_kernel.Error.{
  make, contains, message_parts, make_error_code, text_count, not_running_on_io_scheduler,
}

-- An error made from a category and a system error contains that category and no other, and gives
-- both back; for the categories that there are, the text that is looked up exists.
pub contains-make :
    (io_error_code system_code : ℕ)
    → io_error_code ≤ not_running_on_io_scheduler
    → system_code < word32
    → let e = make io_error_code system_code in
      ((code : ℕ) → (contains e.code code ≡ true) ↔ (code ≡ io_error_code))
      × (message_parts e ≡ (io_error_code, system_code))
      × ((message_parts e).0 < text_count)
unfolding make make_error_code contains message_parts
contains-make io_error_code system_code known fits =
    let low : ((system_code * word32) % word64 + io_error_code) % word32 ≡ io_error_code =
      omega arith in
    let high : ((system_code * word32) % word64 + io_error_code) / word32 ≡ system_code =
      omega arith in
    (
      (λ code. ground (arith, low, ==_iff code io_error_code)),
      ap₂ (λ x y. (x, y)) low high,
      omega (arith, low),
    )
