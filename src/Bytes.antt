-- ===== src/Bytes.antt =====
-- Byte buffers: `&[u8]` slices, `copy_from_slice`, and the little-endian conversions
-- `from_le_bytes` and `to_le_bytes` of the standard library. A byte is a number below 256.
pub mod Endian
pub mod Buffer
pub mod Fields
pub mod Wire
pub mod Parts
