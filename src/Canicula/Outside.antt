-- ===== src/Canicula/Outside.antt =====
-- What src/boot/canicula/x86_64.rs leaves alone in memory.
