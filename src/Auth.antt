-- ===== src/Auth.antt =====
-- The auth package: src/django_core_micha/auth.
pub mod Roles
pub mod Access
pub mod Security
pub mod Permissions
pub mod AdminMfa
pub mod WsPermissions
pub mod Policy
mod Tests
