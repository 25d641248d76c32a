-- ===== src/Net.antt =====
-- src/net.rs: the network card and the network's start. MAC addresses are in Net/Mac.antt.
pub mod Mac
pub mod Select
pub mod Selection
pub mod BringUp
pub mod Passes
pub mod Ready
