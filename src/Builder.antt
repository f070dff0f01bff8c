-- ===== src/Builder.antt =====
-- core/builder: the conversation that builds a workflow node by node.
pub mod Clean
pub mod Edit
pub mod Finish
pub mod Models
pub mod Session
pub mod Start
pub mod State
pub mod Testing
pub mod Turn
pub mod Write
mod Tests
