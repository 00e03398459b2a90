-- ===== src/Access.antt =====
-- packages/core/src: who may do what. Capabilities and roles, the ownership rule, the policy of
-- a content type, and what the public site may show.
pub mod Capability
pub mod Ownership
pub mod Policy
pub mod Visibility
pub mod Registry
pub mod Roles
pub mod Publishing
mod Tests
