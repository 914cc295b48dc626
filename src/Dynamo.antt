-- ===== src/Dynamo.antt =====
-- dynamo-orchestration/src: routing between prefill and decode workers, and the workers.
pub mod Nixl
pub mod Worker
pub mod Registry
pub mod Router
pub mod Shim
