-- ===== src/Error/Tests.antt =====
-- Errors of error.cc at concrete inputs.
use galay_kernel.Prelude.{ℕ, ◌<◌, ◌≡◌, ◌↔◌, refl, true, arith}
use galay_kernel.Error.{make, contains, message_parts, reset, disconnect_error, text_count}
use galay_kernel.Error.Pack.{contains-make}

-- kTimeout with errno 110.
contains-make_example :
    let e = make 15 110 in
    ((code : ℕ) → (contains e.code code ≡ true) ↔ (code ≡ 15))
    × (message_parts e ≡ (15, 110))
    × ((message_parts e).0 < text_count)
contains-make_example = contains-make 15 110 (omega arith) (omega arith)

-- A reset error is that of a broken connection.
contains-reset : contains (reset (make 15 110)).code disconnect_error ≡ true
unfolding contains reset
contains-reset = refl
