-- ===== src/Crc.antt =====
-- The checksums of fio/crc that work through a table of 256 entries, each against the division of
-- polynomials that it stands for, one bit at a time.
pub mod Bytes
pub mod Linear
pub mod Reflected
pub mod Msb
pub mod Crc7
pub mod Crc16
pub mod Crc32
pub mod Crc32c
pub mod Crc64
pub mod Crc64Nvme
pub mod T10Dif
pub mod Division
pub mod Detection
mod Tests
