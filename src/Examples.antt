-- ===== src/Examples.antt =====
-- Tests and applications of the theorems at concrete inputs, by component.
pub mod Generator
pub mod Splay
pub mod Signatures
pub mod Nodes
pub mod Lists
pub mod Simulation
pub mod Rollbacks
pub mod Maps
pub mod Buffers
pub mod Snapshots
