-- ===== src/Billing.antt =====
-- The billing package: src/django_core_micha/billing.
pub mod Ledger
pub mod Tokens
pub mod Refund
pub mod Withdrawal
pub mod Contracts
mod Tests
