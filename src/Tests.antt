-- ===== src/Tests.antt =====
-- Tests, and the concrete inputs of the theorems.
mod PageTables
mod Menus
mod Ports
mod Kernels
mod Networks
mod Stacks
mod Esps
mod Mains
mod Downloads
mod Clients
mod LinuxBoots
mod Unattended
mod Retries
mod Initrds
