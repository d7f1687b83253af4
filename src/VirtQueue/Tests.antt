-- ===== src/VirtQueue/Tests.antt =====
-- Runs of the queue primitives, and the theorems at concrete inputs.
mod Chains
mod Rings
