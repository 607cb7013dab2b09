-- ===== src/Activity.antt =====
-- The activity package: src/django_core_micha/activity.
pub mod Presence
pub mod Policy
mod Tests
