-- ===== src/Upstream.antt =====
-- crates/bulwark-upstream: the health of each upstream, their order, and sequential failover.
pub mod Health
pub mod Pool
mod Standing
mod Fallback
mod Order
mod Examples
