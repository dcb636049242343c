-- ===== src/Memory.antt =====
-- Guest physical memory: core/memory_manager.cc, core/memory_region.cc and their headers.
pub mod Types
pub mod Commit
pub mod Api
pub mod Translate
pub mod Tables
pub mod Compare
pub mod Rebuild
pub mod Visible
pub mod Effects
pub mod Stale
pub mod Ids
pub mod Invariant
pub mod Runs
pub mod Total
pub mod Overlap
mod Examples
