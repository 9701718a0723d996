-- ===== src/Examples.antt =====
-- The theorems of the library at concrete inputs, tests of the definitions, and concrete values for
-- what the scripts take from elsewhere.
mod Instances
mod Caches
mod Selection
mod Stages
mod Counters
mod Samples
mod Truths
mod Generation
mod Tiers
mod Nq
mod Embeddings
mod Resumption
mod Server
