-- ===== src/EventStore.antt =====
-- src/twinstudio/event_store.py: the database of events, users, tokens, sessions and invitations.
pub mod Tables
pub mod Events
pub mod Credentials
pub mod Invitations
