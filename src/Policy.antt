-- ===== src/Policy.antt =====
-- modules/policy: the rule set, its composition with Rego, the approval queue and its bus handlers.
mod Examples
pub mod Types
pub mod Rules
pub mod Rego
pub mod Engine
pub mod Approval
