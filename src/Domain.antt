-- ===== src/Domain.antt =====
-- src/twinstudio/domain.py: the models that the store, the projector and the command bus read.
pub mod Roles
pub mod Stages
pub mod Objects
pub mod Envelopes
pub mod Snapshot
