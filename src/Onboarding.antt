-- ===== src/Onboarding.antt =====
-- Onboarding: daemon/crates/a2ex-onboarding/src.
pub mod Reports
