-- ===== src/Preprocessing/PositionId.antt =====
-- astrai/preprocessing/position_id.py: the position ids of a list of sequences. The mode is one of its
-- three values.
pub mod Packed
use astr_ai.Base.{ℕ, ◌+◌, List, [], ◌∷◌, ◌++◌, length}
use astr_ai.Preprocessing.Packing.{range_from}

pub data Mode : Type 0 where
  no_positions doc_reset continuous : Mode

-- The positions of each sequence from 0 on.
abbrev pub reset_positions : List (List ℕ) → List ℕ
reset_positions [] = []
reset_positions (sequence ∷ sequences) = range_from 0 (length sequence) ++ reset_positions sequences

abbrev pub total_length : List (List ℕ) → ℕ
total_length [] = 0
total_length (sequence ∷ sequences) = length sequence + total_length sequences

abbrev pub generate_position_ids : List (List ℕ) → Mode → List ℕ
generate_position_ids sequences no_positions = []
generate_position_ids sequences doc_reset = reset_positions sequences
generate_position_ids sequences continuous = range_from 0 (total_length sequences)
