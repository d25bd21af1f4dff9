-- ===== src/Cache.antt =====
-- The KV cache of the inference core, astrai/inference/core/cache/ and astrai/model/kv_cache.py.
pub mod Mask
pub mod Allocator
pub mod Radix
pub mod ReqPool
pub mod PagedStrategy
pub mod AllocationStrategy
pub mod BlockPool
pub mod Manager
