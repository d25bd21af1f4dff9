-- ===== src/Parallel.antt =====
-- astrai/parallel: the layout of ranks.
pub mod Topology
