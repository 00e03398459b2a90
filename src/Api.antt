-- ===== src/Api.antt =====
-- apps/api/src: the services of the API around its routes.
pub mod ClientIp
pub mod Scheduler
pub mod StoreHealth
pub mod Probe
pub mod Tests
