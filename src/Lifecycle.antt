-- ===== src/Lifecycle.antt =====
-- src/twinstudio/lifecycle.py: the lifecycle of a product, from a template of the catalog, and its transitions.
pub mod Kinds
pub mod Guidance
pub mod Registry
pub mod Chains
pub mod Starts
