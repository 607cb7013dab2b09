-- ===== src/Assistant.antt =====
-- The assistant package: src/django_core_micha/assistant.
pub mod Catalogue
pub mod Model
pub mod Prices
pub mod Turns
pub mod Limit
pub mod Prompt
mod Tests
