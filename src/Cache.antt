-- ===== src/Cache.antt =====
-- The vector caches `LEANNBC1` and `LEANNBC2` of scripts/benchmark_cache.py: the header and its
-- encoding. The reader is in `Cache.Read`, matrices in `Cache.Matrix`, the writer in `Cache.Write`.
pub mod Matrix
pub mod Header
pub mod Read
pub mod Write
