-- ===== src/Lib.antt =====
-- Verification of vllm-exl3, a vLLM plugin that serves EXL3-quantised mixture-of-experts models.
--
-- The program has a serving plugin (src/vllm_exl3), CUDA kernels (csrc), an experiment that streams
-- experts from NVMe (experiments/dsv41_nvme), and packing tools (tools). This library models the
-- parts that decide: which rows go into one slice of a prefill, which columns a rank loads, how many
-- tokens are drafted, whether a deployment is admitted, and where a byte of the expert arena lives.
-- The kernels that multiply packed matrices, and the torch code around them, are not modelled.
--
-- Prelude    shared names: tests on the native numbers, lists, exceptions as a result type, ASCII
--            texts with `strip`, `lower`, `split` and `int`, the objects that `isinstance` tells
--            apart, and keys without repetitions.
-- Nvme       Regions: `aligned` and the class `Regions` of experiments/dsv41_nvme/expert_store.py,
--            the allocator of the expert arena. The free list is a list of blocks, the dict of
--            allocations an association list in insertion order. Cache: `_evict`, `_load`, the two
--            halves of `lease`, `clear` and `close` of the class `ExpertCache` of
--            experiments/dsv41_nvme/expert_cache.py, on one Regions for each layer,
--            and in Opening its constructor, with the quotas of the layers. A key is a pair,
--            and an operation returns its result or its error with the cache that it leaves. Reads:
--            the loops of `pread` calls of `EngramRows._read`, `ExpertStore.read` and
--            `AsyncExpertStore._fetch`, whose system calls are an argument. Bank: `validate_tensors`
--            and the constructor of `ExpertStore`, on a manifest. Engram: the class `EngramRows` of
--            engram_rows.py, the cache of embedding rows with its prefetch. Async: the class
--            `AsyncExpertStore` of async_store.py, its tickets and its queue of keys, where the
--            readers are an argument.
-- Q4kv       Geometry: the sizes and offsets of a page of the pool (`nvfp4_row_bytes`,
--            `q4_pool_page_bytes`, `scale_block_offset`, `_scale_offset_table`,
--            `flat_page_to_container`). Slices: `_greedy_row_slices` with `break_row`, and
--            `_greedy_row_slices_fast` with `_union_curve`, of
--            src/vllm_exl3/minimax_q4kv_reference.py. Plans: the plan of a prefill chunk that is built on
--            either of them (`_selected_page_bitmap`, `plan_prefill_slices`,
--            `plan_prefill_slices_fast`, `prefill_slice_metadata`). A row of a Boolean tensor is
--            the test whether it selects a page.
-- Tp         tensor-parallel shards of EXL3 weights, src/vllm_exl3/exl3.py: `aligned_tp_split`,
--            `_narrow_tp`, `shard_exl3_col`, `shard_exl3_row`, `moe_tp_rotation`. A shard is an
--            offset and a length.
-- Spec       the speculative-decoding schedule of src/vllm_exl3/exl3.py:
--            `_validated_speculative_schedule`, `parse_speculative_schedule`,
--            `get_speculative_draft_tokens`, `filter_speculative_candidates`.
-- Moe        Arenas: `prepare_trellis_arena_plan` of src/vllm_exl3/exl3.py, the arenas of the packed
--            trellises and the slot of each expert, for one projection. Routing:
--            `map_topk_to_local`.
-- Policy     the admission policies: Prefill (src/vllm_exl3/prefill_policy.py), CpuOffload
--            (cpu_offload.py), Rows (runtime_policy.py, and `_native_moe_max_rows`,
--            `_native_moe_dimensions_supported`, `_exl3_moe_tail`, `expert_k_census_supported` of
--            exl3.py), V41 (v41_context.py and deepseek_v41.py), Uva (uva_offload.py).
--
-- In each, Defs holds the definitions (Memory and Layout in Policy/V41, Opening in Nvme/Cache,
-- and Fast in Q4kv/Plans), Tests runs them and applies the theorems at concrete inputs, and the
-- other files hold the proofs. The parts meet where one calls the other: Cache is a client of
-- Regions, Engram and Bank are clients of Reads, Plans is a client of the planners of Slices,
-- each with its proofs on the theorems of what it calls, Policy/V41 wraps the geometry test of
-- Policy/Rows, and every policy reads the environment through Policy/Env.
--
-- How the program is modelled:
--   * Sizes and offsets are natural numbers. Where the code tests for a negative number or for a
--     type, the argument is an integer or a Python object, and the test is in the model. A
--     subtraction that could go below 0 is written out where it occurs.
--   * An exception is a constructor of Error; its message is left out. The environment is an
--     argument, `none` for a variable that is unset. Texts are ASCII.
--   * The loops `while start < nrows` of the planners take as fuel the number of rows, and the loop
--     `while e < nrows` one more: each round moves on by a row at least. The loop of
--     evictions of a load takes one more than the number of entries: each round deletes one. The
--     loops of reads take more than the size and the time after which no signal interrupts a call:
--     each round reads a byte or passes time.
--   * A system call is a function of its offset, its size and the time. A thread that works on its
--     own for an operation runs where the operation submits it, or its outcome is an argument.
--   * `sorted` is an insertion sort, `searchsorted` and `bisect_right` are counts.
--   * `math.ceil(a / b)` of the prefill policy goes through a float; it is the exact quotient
--     rounded up for numbers below 2 ^ 53, and the exact one here.
--   * A tensor is what the code reads of it: its shape, or its rows.
--
-- What is not modelled: the CUDA and Triton kernels, dequantisation and every other computation on
-- floats, budgets in GiB, the loading of checkpoints and the torch modules around it, the patching
-- of vLLM classes, logging and statistics, the command-line tools, and of the NVMe experiment the
-- writing of a bank, the multiplication of the cache (`apply`), and the counts that the reader
-- threads keep.
pub mod Prelude
pub mod Nvme
pub mod Q4kv
pub mod Tp
pub mod Spec
pub mod Moe
pub mod Policy
