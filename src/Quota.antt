-- ===== src/Quota.antt =====
-- modules/quota: budgets of tokens, requests, agents and sessions per tenant.
mod Examples
pub mod Bucket
pub mod Counters
pub mod Enforcer
pub mod Service
