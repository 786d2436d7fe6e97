-- ===== src/Timer.antt =====
-- The timers of timer/: one of three modules is built into the library, by its features.
pub mod Process
pub mod Qemu
pub mod Kvm
pub mod Interface
