-- ===== src/Actions.antt =====
-- core/action_executor.py and core/execution_guard.py: one tool, run without a language model.
pub mod Guard
pub mod Masking
pub mod Run
