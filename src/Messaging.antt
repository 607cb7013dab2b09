-- ===== src/Messaging.antt =====
-- The messaging package: src/django_core_micha/messaging.
pub mod Model
pub mod Messages
pub mod Reading
pub mod Receipts
pub mod Polls
pub mod Reactions
pub mod Membership
pub mod Conversations
mod Tests
