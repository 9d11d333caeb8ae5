-- ===== src/Handlers/Tests.antt =====
-- A connect that is refused (ECONNREFUSED).
use galay_kernel.Prelude.{arith}
use galay_kernel.UringRecv.{error}
use galay_kernel.Handlers.{connecting, handle_complete}
use galay_kernel.Handlers.Outcome.{Failed, handle_complete-Failed}

handle_complete-Failed_example : Failed connecting 111 (handle_complete connecting (error 111))
handle_complete-Failed_example = handle_complete-Failed connecting 111 (omega arith)
