-- ===== src/Lib.antt =====
-- AstrAI: the inference core, which admits requests, plans steps and keeps the KV cache's pages, its
-- frontend and its workers' results, and the order and packing of the data that training reads.
--
-- The parts of the program and how they interact:
-- - The page allocator (astrai/inference/core/cache/strategy.py, `Allocator`) hands out pages of KV
--   storage. A page is free, held by requests with a reference count, or cached in an LRU; allocation
--   evicts cached pages and tells a callback. Cache/Allocator.antt has every method; Cache/Mask.antt the
--   bits of Python's integers. Words, Harvest, Index prove the shadow index of 64-bit words; Inv the
--   invariant; Granted and Dropped what one page's hand-out and release do; Init, Alloc, Room, Free
--   the methods; Tests runs them.
-- - The prefix index (`RadixCache`, same file) maps page-aligned token prefixes to pages. Its trie is in
--   Cache/Radix.antt a dictionary from paths to pages, where a path is the list of the edges' tokens;
--   a node object is its path, which nothing changes while it is in the trie. Inv, Prefix and Record
--   hold the proofs.
-- - The strategies (`AllocationStrategy`, `ContiguousStrategy`, `PagedStrategy`) are
--   Cache/AllocationStrategy.antt and Cache/PagedStrategy.antt, with Slots and Write for the bulk write of
--   an admission; the allocator's callback is the prefix
--   index's `evict`. The table of rows (astrai/model/kv_cache.py, `ReqToTokenPool`) is Cache/ReqPool.antt.
-- - The block pool and the manager of requests' cache states (astrai/inference/core/cache/pool.py) are
--   Cache/BlockPool.antt and Cache/Manager.antt.
-- - Requests, events and the messages between the core and the worker (astrai/inference/core/request.py,
--   events.py, astrai/inference/contracts.py) are Engine/Request.antt.
-- - The planner (planner.py) is Engine/Planner.antt, the scheduler (scheduler.py) is
--   Engine/Scheduler.antt for the life of requests and the planning of steps, and Engine/Results.antt
--   for what the worker sends back and plans that are undone.
-- - The guard of the weights' version (versioning.py) is Engine/Versioning.antt.
-- - The frontend turns the core's events into text (astrai/inference/frontend/output_processor.py):
--   Frontend/StopChecker.antt is `StopSequenceChecker`, with Find, Scan, Release and Stream for its
--   proofs, and Frontend/Output.antt is `OutputProcessor`. Its queues of events (tracking.py, `RequestTracker`) are
--   Frontend/Tracking.antt, with Delivery and Restore for the proofs.
-- - The results of a step that the worker submitted, and the pinned slots that they are copied to
--   (astrai/inference/worker/pending.py), are Worker/Pending.antt, with Slots and Commit.
-- - The windows of a training epoch (astrai/dataset/sampler.py, `GlobalBatchSampler`) are
--   Dataset/Sampler.antt, and a replica's shards (`RDSampler`) are Dataset/Replica.antt; the steps that
--   the trainer counts (astrai/trainer/step_plan.py) are Trainer/StepPlan.antt.
-- - The packing of training sequences (astrai/preprocessing/packing.py) is Preprocessing/Packing.antt for
--   `plan_bfd`, with Counting, Bins, BestFit and Bfd, and Preprocessing/Fields.antt for `pack_sequences`,
--   with Chunks, Planned, Aligned and Sequences; position ids (position_id.py) are
--   Preprocessing/PositionId.antt.
-- - The layout of ranks (astrai/parallel/topology.py, `ParallelTopology`) is Parallel/Topology.antt.
-- Base.antt and its children hold the shared types: Boolean tests on the native numbers, lists with
-- indices, dictionaries as association lists, the integers of the reference counts, exceptions as values.
--
-- Conventions. A method takes the state and gives the new one beside its answer, or an exception; the
-- state that a raising method leaves behind is not modelled. A lock is held for a whole method, so a
-- method is one step; the two parts of the tracker's call run one after the other. An integer that the
-- code keeps as a bitmask is a list of bits, lowest first, as long as what indexes it. A request's incarnation is a number in place of a random string. An object
-- that dictionaries share is held once, in the dictionary that owns it, and named by its id elsewhere.
--
-- Fuel. `evict_until` and `evict_all` have fuel for each page in the LRU: an eviction takes its page
-- out of the LRU, so the loops end by their tests. `windows_from` has fuel for each sample that is left,
-- and a window has at least one. `steps` and `epoch_slices`, ranges with a step, have fuel for each place
-- that is left, and a step is positive; `stride` has fuel for each entry. Every other loop is structural.
--
-- Not modelled: tensors (keys and values, kernels, sampling from logits, training), the tokenizer and
-- its decoder (a parameter of the output processor), templates, HTTP protocols, files, threads, process
-- groups, clocks and metrics. The engine's loop and the configuration are not modelled.
pub mod Base
pub mod Cache
pub mod Engine
pub mod Dataset
pub mod Frontend
pub mod Worker
pub mod Preprocessing
pub mod Trainer
pub mod Parallel
