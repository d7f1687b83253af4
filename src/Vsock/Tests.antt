-- ===== src/Vsock/Tests.antt =====
-- Runs of the vsock transport, and the theorems at concrete inputs.
mod Packets
mod Tables
mod Queues
mod Devices
