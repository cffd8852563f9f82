-- ===== src/Engine.antt =====
-- crates/bulwark-engine/src: the handler of a query.
pub mod State
pub mod Block
pub mod Answers
pub mod Ingress
pub mod Handler
mod Through
mod Total
mod Ids
mod Examples
