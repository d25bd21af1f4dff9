-- ===== src/Trainer.antt =====
-- astrai/trainer: the bookkeeping of optimizer steps.
pub mod StepPlan
