-- ===== src/Validator.antt =====
-- core/validators/static_validator.py: the static check of a workflow.
pub mod Branches
pub mod Collect
pub mod Conditions
pub mod Cron
pub mod Fields
pub mod Graph
pub mod Problem
pub mod Refs
pub mod Samples
pub mod Strings
pub mod Workflow
mod Tests
