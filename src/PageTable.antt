-- ===== src/PageTable.antt =====
-- src/page_table/mod.rs selects one architecture at compile time; here each is a module.
pub mod Walk
pub mod Entry
pub mod KernelWalk
pub mod X64
pub mod LoongArch64
pub mod AArch64
pub mod RiscV64
