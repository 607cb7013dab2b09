-- ===== src/Extraction.antt =====
-- The extraction package: src/django_core_micha/extraction.
pub mod CostGuard
mod Tests
