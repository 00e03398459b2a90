-- ===== src/Hooks.antt =====
-- packages/core/src/hooks.ts and hooks.events.ts: the extension point, and what the core announces.
pub mod Registry
pub mod Calls
pub mod Order
pub mod Filtering
pub mod Events
pub mod Tests
