-- ===== src/ByteArray/Strings.antt =====
-- Strings and floats in fatdog/bytearray.cpp: a string is its bytes behind its length, a float is
-- stored as the integer that has its bit pattern.
pub mod RoundTrip
pub mod Errors
use fatdog.Base.{ℕ, ◌%◌, ◌^◌, List, length}
use fatdog.ByteArray.State.{Endian, M, pure, ◌>>=◌, ◌>>◌}
use fatdog.ByteArray.Raw.{write, read}
use fatdog.ByteArray.Fixed.{
  write_fuint16, write_fuint32, write_fuint64, read_fuint16, read_fuint32, read_fuint64,
}
use fatdog.ByteArray.Varint.{write_uint64, read_uint64}

-- `value.size()` is converted to uint16_t, and loses what does not fit.
pub write_string_f16 : Endian → List ℕ → M (Unit {0})
write_string_f16 host value = do write_fuint16 host (length value % 2 ^ 16); write value

pub write_string_f32 : Endian → List ℕ → M (Unit {0})
write_string_f32 host value = do write_fuint32 host (length value % 2 ^ 32); write value

pub write_string_f64 : Endian → List ℕ → M (Unit {0})
write_string_f64 host value = do write_fuint64 host (length value); write value

pub write_string_vint : List ℕ → M (Unit {0})
write_string_vint value = do write_uint64 (length value); write value

pub write_string_without_length : List ℕ → M (Unit {0})
write_string_without_length value = write value

-- The buffer of `len` bytes that `read` fills.
pub read_string_f16 : Endian → M (List ℕ)
read_string_f16 host = do len ← read_fuint16 host; read len

pub read_string_f32 : Endian → M (List ℕ)
read_string_f32 host = do len ← read_fuint32 host; read len

pub read_string_f64 : Endian → M (List ℕ)
read_string_f64 host = do len ← read_fuint64 host; read len

pub read_string_vint : Endian → M (List ℕ)
read_string_vint host = do len ← read_uint64 host; read len

-- The memory of a float and of a double, given by the pattern that memcpy copies.
pub write_float : Endian → ℕ → M (Unit {0})
write_float host pattern_of_value = write_fuint32 host pattern_of_value

pub write_double : Endian → ℕ → M (Unit {0})
write_double host pattern_of_value = write_fuint64 host pattern_of_value

pub read_float : Endian → M ℕ
read_float host = do v ← read_fuint32 host; pure v

pub read_double : Endian → M ℕ
read_double host = do v ← read_fuint64 host; pure v
