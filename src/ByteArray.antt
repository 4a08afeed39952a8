-- ===== src/ByteArray.antt =====
-- fatdog/bytearray.h, fatdog/bytearray.cpp and fatdog/endian.h: a growable byte buffer over a
-- chain of nodes of equal size, with one position for reading and writing.
pub mod State
pub mod File
pub mod Endian
pub mod Raw
pub mod Fixed
pub mod Varint
pub mod Strings
pub mod Buffers
mod Runs
mod CodeRuns
