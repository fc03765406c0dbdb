-- ===== src/Tests.antt =====
-- Runs of the models on small inputs, and instances of the theorems.
pub mod Buffers
pub mod Vectors
pub mod Tables
pub mod Pools
pub mod Threads
pub mod Tasks
pub mod Maps
pub mod Pointers
pub mod Caches
pub mod Locks
pub mod Resources
