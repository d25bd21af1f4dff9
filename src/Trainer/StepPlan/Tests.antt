-- ===== src/Trainer/StepPlan/Tests.antt =====
-- Runs of astrai/trainer/step_plan.py on concrete inputs.
use astr_ai.Base.{◌≡◌, refl, ◌*◌, true, false, List, some, ok, length, arith}
use astr_ai.Base.Int.{pos, negsuc}
use astr_ai.Dataset.Sampler.{GlobalBatchSampler, flush_tail, windows}
use astr_ai.Trainer.StepPlan.{Update, ceil_div, or_else, learner_update_slices, global_epoch_steps}
use astr_ai.Trainer.StepPlan.EpochSlices.{prompts, LastFinal}
use astr_ai.Trainer.StepPlan.Slices.{replayed, learner_update_slices-replayed}
use astr_ai.Trainer.StepPlan.Epoch.{total_cost, update_count, global_epoch_steps-updates}

learner_update_slices-replayed_example :
    (updates : List Update) × (learner_update_slices 5 2 (some 2) ≡ ok updates)
    × (length updates ≡ 2 * ceil_div 5 (or_else (some 2) 5))
    × (prompts updates ≡ replayed 5 2)
    × LastFinal updates
learner_update_slices-replayed_example =
    learner_update_slices-replayed 5 2 (some 2) (omega arith) (omega arith)

abbrev sampler : GlobalBatchSampler
sampler = record {
  num_samples = 11;
  dp_size = 2;
  dp_rank = 0;
  batch_size = 2;
  accumulation_steps = 1;
  tail_policy = flush_tail;
  epoch = 0;
  start_offset = 0;
}

global_epoch_steps-updates_example :
    (global_epoch_steps 11 0 4 flush_tail false 2 (some 3) ≡ pos (length (windows sampler)))
    × (global_epoch_steps 11 0 4 flush_tail true 2 (some 3)
        ≡ pos (total_cost (update_count 2 (some 3)) (windows sampler)))
global_epoch_steps-updates_example =
    global_epoch_steps-updates sampler 2 (some 3) (omega arith) (omega arith) (omega arith)

-- Two full windows of two updates and a tail of one, twice each.
steps_of_sampler : global_epoch_steps 11 0 4 flush_tail true 2 (some 3) ≡ pos 10
unfolding global_epoch_steps
steps_of_sampler = refl

-- Past the samples the number of steps is negative.
steps_past : global_epoch_steps 4 8 4 flush_tail false 2 (some 3) ≡ negsuc 0
unfolding global_epoch_steps
steps_past = refl
