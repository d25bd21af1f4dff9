-- ===== src/Dataset.antt =====
-- The order in which training reads its data, astrai/dataset/.
pub mod Sampler
pub mod Replica
