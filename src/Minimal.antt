-- ===== src/Minimal.antt =====
-- minimal/: the kernels that only print a line, one for each platform.
pub mod Rpi
pub mod Virt
