-- ===== src/PrefixCache.antt =====
-- runtime/include/nemotron/prefix_cache.h and runtime/src/cache/prefix_cache.cpp: the cache of
-- prompt prefixes. Its operations stand in Identity, State, Nodes, Publish and Lookup.
pub mod Identity
pub mod State
pub mod Nodes
pub mod Publish
pub mod Lookup
pub mod Sound
pub mod Growth
pub mod Matching
pub mod Index
pub mod Search
pub mod Consistency
pub mod Members
pub mod Leave
pub mod Roles
pub mod Prepare
pub mod Publishing
pub mod Agreement
pub mod Heads
pub mod Published
pub mod Roots
pub mod Lookups
pub mod Isolation
pub mod Enabled
pub mod Requests
pub mod Resume
pub mod Examples
pub mod Oldest
pub mod Evict
