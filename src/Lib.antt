-- ===== src/Lib.antt =====
-- Verification of the core of NeMo RL, a library for reinforcement learning of language models.
--
-- Packing (nemo_rl/data/packing/algorithms.py) puts sequences of given lengths into bins of a
-- fixed capacity. `Packing.Packer` has the base class and its helpers, `Packing.Adjust` the
-- adjustment of the number of bins, `Packing.Concatenative`, `Packing.FirstFit` and
-- `Packing.Modified` the algorithms, and `Packing.Factory` the call `pack` and `get_packer`. A
-- bin is a list of indices into the list of lengths. `Packing.Spec` says what a packing is.
-- Lengths and capacities are numbers from 0 on; a comparison with a half, a third or a sixth of
-- the capacity is written with a multiplication. The loops are recursions over the lists that the
-- code goes through; the greedy `while` of the modified packer runs on fuel, the number of items
-- that remain, and each of its rounds takes one of them, so it is enough. `random.shuffle` is a
-- parameter of the model that is only assumed to rearrange its list. Python lists and their
-- stable sort are written out in `Common`.
--
-- Async (nemo_rl/algorithms/async_utils.py) has the replay buffer between the workers that
-- generate trajectories and the trainer. Its lock makes each method one step of
-- `Async.ReplayBuffer`; `Queue` is its abstract view. What methods print is left out, and an
-- average is kept as a fraction in place of a float. `Async.Collector` has the collector:
-- `Targets` its choice of target weights, `System` the collection loop, the worker threads and
-- the trainer as steps in any order, where a phase of the loop and the task of a worker stand
-- between two accesses to shared state, and `System.Steps` the steps; the few accesses that are
-- one step are listed in `System`. `System.Window`, `Loop`, `Workers` and `Safety` have the
-- lemmas on its states. Versions do not decrease. Rollouts, batches and failures come from
-- outside; times and the invalidation of caches are left out.
--
-- Checkpoint (nemo_rl/utils/checkpoint.py) has the checkpoint directory as the list of its named
-- subdirectories: `Disk` has lookups after a renaming or a removal, `Finalize` the move of a new
-- checkpoint into place, `Greatest`, `Removal` and `Latest` the clean-up of old ones, `Best` the
-- path to the best one and `Best.Sorted` that it is. A metric's values and their order are
-- parameters. The reads for resuming are not modelled.
--
-- Puzzle (nemo_rl/environments/games/sliding_puzzle.py) has the sliding puzzle, an environment of
-- the training: `Grid` its cells, `Board` the moves and `Turn` a turn of a game and its
-- generation, with the random choices as an argument. Texts are not modelled: a command is what
-- the text says.
--
-- Batch (nemo_rl/distributed/batched_data_dict.py) has the dictionary of columns that batches
-- are, a column being its kind and its list of rows: `Columns`, `Slices`, `Reorder` and `Chunk`
-- have what picks rows by index, `Shard` the checks of `shard_by_batch_size` and its cut into
-- shards, `Dynamic` its sorting and microbatches for dynamic batching, and `Packed` its bins for
-- sequence packing, which come from `Packing`. `Iterate` has what training reads: `get_batch` and
-- the microbatch iterators, an iterator being the list of what it yields. A row is abstract, and
-- so is what torch says of it (`item`, `shape[1]`), so joining batches is modelled for rows of
-- one width. The loops are recursions over the ranges they go through.
--
-- Rollouts (nemo_rl/experience/rollouts.py) has the synchronous multi-turn rollout: `Rewards` is
-- about `calculate_rewards`, `Turn` and `Turns` about the loop, which is written sample by
-- sample: a sample is active as long as its index is in `active_indices`. The engine, the
-- environments and the tokenizer are parameters.
--
-- Grpo (nemo_rl/algorithms/grpo.py) has `dynamic_sampling` and the batches that `grpo_train` asks
-- for until one is complete; `Calls` and `Limit` have one call and their number. The loops over
-- turns and batches are recursions over their number or over the list of batches.
--
-- ContextParallel (nemo_rl/distributed/model_utils.py) has the cut of a sequence over context
-- parallel ranks: `Chunks` has its chunks and their indices, `Gather` the gather that undoes it
-- and `Backward` the gradient. A tensor is the list of its slices along the cut dimension, and
-- what the collectives leave is an argument.
--
-- Megatron (nemo_rl/models/megatron/data.py) has the packing of sequences into one row: `Blocks`
-- the blocks of the row, `Layout` where they stand, `Ranks` what context parallel ranks have of
-- them, which is cut by `ContextParallel`, and `Parameters` the settings from the configuration.
-- A recipe of fp8 is one of three kinds.
--
-- PackedTensor (nemo_rl/utils/packed_tensor.py) has the broadcast of a model's parameters in
-- large pieces: `Producer` and `Consumer` are the two ends, whose rounds are the same function of
-- their buffers, `Groups` has the groups that the rounds form, and `Transfer` has the two ends
-- together. A round takes an item at least unless it is the last, so as many rounds as items and
-- one more are enough. The group of processes, the views of tensors and what is done before
-- packing are parameters.
--
-- Timeout (nemo_rl/utils/timer.py) has the checker that tells a training run to save before its
-- time is over; `Once` is about its answers. The clock is an argument, in whole seconds, and does
-- not go back.
--
-- The rest of the training loops, the losses, models, generation engines and the distributed
-- runtime are calls of torch, Ray, vLLM and Megatron and are not modelled.
pub mod Common
pub mod PackedTensor
pub mod ContextParallel
pub mod Packing
pub mod Async
pub mod Checkpoint
pub mod Puzzle
pub mod Rollouts
pub mod Grpo
pub mod Timeout
pub mod Batch
pub mod Megatron
