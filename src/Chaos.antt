-- ===== src/Chaos.antt =====
-- The chaos package: faults injected into proxied interfaces by rules.
pub mod Rules
pub mod Spec
pub mod Plan
pub mod Lookup
pub mod Validation
pub mod Ownership
pub mod Intercept
pub mod Usable
pub mod Actions
pub mod Budget
pub mod Calls
pub mod Counting
pub mod Limit
pub mod Switch
