-- ===== src/Notifications.antt =====
-- The notifications package: src/django_core_micha/notifications.
pub mod Dispatch
mod Tests
