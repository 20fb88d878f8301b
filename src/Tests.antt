-- ===== src/Tests.antt =====
-- Concrete dictionaries and hash functions on which the theorems are applied, and runs of the
-- definitions on them.
pub mod Samples
mod Hashes
mod Dicts
mod Tables
pub mod Patterns
mod Rules
mod Runs
mod Tokens
mod Chips
mod Maps
mod Graphs
mod Cpuid
mod Storage
mod Hierarchy
