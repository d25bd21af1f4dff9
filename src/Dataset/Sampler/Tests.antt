-- ===== src/Dataset/Sampler/Tests.antt =====
-- Runs of astrai/dataset/sampler.py on concrete inputs.
use astr_ai.Base.{◌≡◌, refl, [], ◌∷◌, length, ok, err, value_error, arith}
use astr_ai.Dataset.Sampler.{
  GlobalBatchSampler, flush_tail, set_epoch, windows, real_count, local_indices, length_hint,
}
use astr_ai.Dataset.Sampler.Windows.{total_microbatches, length_hint-windows, length-local_indices}

abbrev sampler : GlobalBatchSampler
sampler = record {
  num_samples = 5;
  dp_size = 1;
  dp_rank = 0;
  batch_size = 2;
  accumulation_steps = 2;
  tail_policy = flush_tail;
  epoch = 0;
  start_offset = 0;
}

length_hint-windows_example : length_hint sampler ≡ ok (total_microbatches (windows sampler))
length_hint-windows_example = length_hint-windows sampler (omega arith) (omega arith) (omega arith)

-- `set_epoch` checks no offset: past the samples `len` raises, and there is no window.
length_hint_past : length_hint (set_epoch sampler 1 12) ≡ err value_error
unfolding length_hint set_epoch
length_hint_past = refl

windows_past : windows (set_epoch sampler 1 12) ≡ []
unfolding windows set_epoch
windows_past = refl

length-local_indices_example :
    length (local_indices sampler (3 ∷ 1 ∷ 4 ∷ 0 ∷ 2 ∷ []) 4 0) ≡ real_count sampler 4 0
length-local_indices_example = length-local_indices sampler (3 ∷ 1 ∷ 4 ∷ 0 ∷ 2 ∷ []) 4 0 refl
