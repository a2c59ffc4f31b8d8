-- ===== src/Bus.antt =====
-- src/twinstudio/bus.py: commands become events, under the permissions of the actor's role.
pub mod Cases
pub mod Table
pub mod Needs
pub mod Guards
pub mod Execute
