-- ===== src/Packing.antt =====
-- Sequence packing: nemo_rl/data/packing/algorithms.py.
pub mod Packer
pub mod Spec
pub mod Adjust
pub mod Concatenative
pub mod FirstFit
pub mod Modified
pub mod Factory
mod Tests
