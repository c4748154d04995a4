-- ===== src/Thumb16.antt =====
-- The 16-bit instructions of `machine_step`.
pub mod Data
pub mod Transfer
pub mod Misc
