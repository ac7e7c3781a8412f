-- ===== src/Async.antt =====
-- Asynchronous training (nemo_rl/algorithms/async_utils.py).
pub mod ReplayBuffer
pub mod Collector
pub mod Tests
