-- ===== src/Preprocessing.antt =====
-- astrai/preprocessing: the packing of token sequences.
pub mod Packing
pub mod Fields
pub mod PositionId
mod Tests
