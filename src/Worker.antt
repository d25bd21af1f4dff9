-- ===== src/Worker.antt =====
-- astrai/inference/worker: what a submitted step leaves to be read.
pub mod Pending
