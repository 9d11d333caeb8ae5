-- ===== src/IoController.antt =====
-- galay-kernel/kernel/io_controller.hpp: what an open handle keeps between its operations.
pub mod ReadyRecv
pub mod Stream
pub mod Reads
pub mod Recv
mod Tests
