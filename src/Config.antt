-- ===== src/Config.antt =====
-- The configuration of the core: the chains of outbounds (src/configs/generate.cpp).
pub mod Context
pub mod Hops
pub mod Chain
pub mod Outbounds
pub mod Section
pub mod Prerequisites
mod Examples
