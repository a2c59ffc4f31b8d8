-- ===== src/Projector.antt =====
-- src/twinstudio/projector.py: a snapshot of a project from its events.
pub mod Views
pub mod Changes
pub mod Handlers
pub mod Replay
