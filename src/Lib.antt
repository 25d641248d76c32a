-- ===== src/Lib.antt =====
-- Alpheratz, a UEFI boot loader: it reads its configuration, shows a menu, loads the files of the
-- entry that is chosen, and starts a Linux kernel through the EFI stub or a Canicula kernel with
-- page tables of its own.
--
-- The parts, and the file of each:
-- - Memory.antt: physical memory, as the 64-bit words that the code writes by address. A loop that
--   stores is `for_range`, `ptr::write_bytes` with 0 is `write_zeros`.
-- - Serial.antt (src/serial.rs): the port is the bytes that were sent to it. Memory and port are
--   the machine that is left after `exit_boot_services`.
-- - PageTable.antt (src/page_table): X64, AArch64, RiscV64 and LoongArch64 model x86_64.rs,
--   aarch64.rs, riscv64.rs and loongarch64.rs. `allocate_page_tables` lays the tables out,
--   `init_page_tables` fills them; the loops of the latter have names of their own (`fill_pt`,
--   `fill_l3`, ...). `Walk` is the walk of an MMU, the specification that the tables are read with:
--   each architecture's Decode gives its entry format, from the architecture's manual and not from
--   the loader's flags. Maps has the theorems, and Oversize in X64 what becomes of a kernel that
--   has no room.
-- - Config.antt (src/config.rs): the configuration as it is decoded.
-- - Menu.antt (src/menu.rs): `show` is a fold over the readings of the keyboard, one for each round
--   of 100 ms; `confirm`, `reboot_to_firmware`, and `draw` in Menu/Screen.antt with each call on the
--   console in order.
-- - Canicula.antt (src/boot/canicula/x86_64.rs): `boot_canicula_elf` up to its jump. Loader has
--   the loops over the ELF's segments, Boot the whole function, Image what the kernel finds.
--   Physical memory is one store of bytes: segments are copied into it, `words_of` of Words is
--   how the page table code writes to it, and `bytes_of` what it is at the jump. Handed is what
--   the kernel is given, Outside what is left alone in memory, Started and Totality have the
--   lemmas on reaching the jump.
-- - Linux.antt (src/boot/linux.rs): `boot_linux` as what it returns and the list of calls that it
--   made on the firmware and of messages that it printed, `initrd_load_file` in Initrd, the initrd's
--   device path in DevicePath, the code units of a command line in Text. Firmware.antt has the status codes.
-- - Session.antt: where calls on the firmware follow each other, an action takes the machine and the
--   messages printed so far and leaves them changed, after an error too.
-- - Net.antt (src/net.rs): `parse_mac` and `mac_to_string` in Mac, `select_nic_handle` and
--   `open_ip4config2` in Select, `bring_up_ipv4` in BringUp; its loop is `passes`.
-- - FsUtil.antt (src/fsutil.rs): `open_esp_root`, `read_file`, `path_join`, and
--   `load_drivers_from_config` as the paths that it tries; Images has `load_and_start_image`, and
--   `load_drivers` is `load_drivers_from_config` as what trying the paths does to the machine.
-- - Download.antt (src/download.rs): `resolve_all` over what its sources give, with `expand_vars` and
--   UTF-8 in Text. Files has the specification of what an entry resolves to. Request is one download.
--   Client has `resolve_all` on the machine, `resolve_all_on`, with the steps that start the HTTP
--   client; Answers has the sources that the machine gives, Effects what it leaves alone.
-- - Main.antt (src/main.rs): `main_loop` puts these together: `show`, then `resolve_all` for the
--   entry, then the boot function of its protocol, or, after `wait_for_key` of Wait, the next turn.
--   Load has `load_config`. OnMachine has the same loop with `resolve_all_on`: `main_on` is `main` up
--   to the call of a boot function, and Boot is that call and the return after it. Unattended puts
--   all parts together, from the configuration to the kernel; Retry and Initrd are about an entry
--   that cannot be booted and about the initrd that the kernel gets.
-- - Arch.antt: the architectures; `arch_name` of src/download.rs, and `boot_canicula` of
--   src/boot/canicula/mod.rs, which is `boot_canicula_elf` on x86_64 alone.
-- - Tests.antt: runs at concrete inputs.
--
-- Integers are natural numbers; those of 64 bits are kept below 2 ^ 64 by `+u`, `-u`, `*u` and
-- `<<<`, which wrap. The loops that need fuel are the decimal printing of the countdown, which
-- has as much fuel as the number it prints, and the loop over the body of an HTTP response.
-- Nothing bounds a body: its fuel is a parameter, the calls that a run is followed for, a body
-- that ends within it is downloaded, and out of fuel `main` is still waiting. The loop of `show`
-- has no bound in the source: a run is its readings, and `none` stands for the loop without end
-- of an empty menu.
--
-- Not modelled: the panic handler, which is an empty loop, and the messages of
-- src/boot/canicula. The disk stays as it is. The firmware, the HTTP client, the ELF and TOML
-- parsers and the crates of UEFI are third-party code: what the loader asks of them is a
-- parameter of the definitions that ask. The page allocator is such a parameter, with the
-- hypothesis that what it returns is page-aligned and inside the address space, and, where a
-- kernel is started, that the kernel's pages are not given again for the tables.
-- `MemoryRegions::push` of canicula_common is another.
pub mod Arch
pub mod Canicula
pub mod Config
pub mod Download
pub mod Firmware
pub mod FsUtil
pub mod Linux
pub mod Main
pub mod Memory
pub mod Menu
pub mod Net
pub mod PageTable
pub mod Prelude
pub mod Serial
pub mod Session
pub mod Tests
