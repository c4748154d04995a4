-- ===== src/Tests.antt =====
-- The theorems at concrete machines, and runs of small programs.
mod Samples
mod Alu
mod Memory
mod Control
mod Thumb
