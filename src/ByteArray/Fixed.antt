-- ===== src/ByteArray/Fixed.antt =====
-- The integers of fixed width of fatdog/bytearray.cpp. `host` is the byte order of the machine,
-- FATDOG_BYTE_ORDER; the byte order of the object decides how an integer is stored.
pub mod RoundTrip
pub mod Codes
use fatdog.Base.{ℕ, ◌%◌, ◌^◌, ◌≡◌, length}
use fatdog.Base.Signed.{ℤ, to_unsigned, to_signed}
use fatdog.ByteArray.State.{ByteArray, Endian, Outcome, M, pure, after, ◌>>=◌, returns}
use fatdog.ByteArray.Endian.{layout, of_layout, ordered}
use fatdog.ByteArray.Raw.{write, read}

-- The common body of writeF*: swap if the orders differ, and copy the memory of the value.
pub write_fixed : Endian → ℕ → ℕ → M (Unit {0})
write_fixed host w value self = write (layout host w (ordered self.endian host w value)) self

-- The macro XX of readF*: copy the memory into a value, and swap if the orders differ.
pub read_fixed : Endian → ℕ → M ℕ
read_fixed host w = do
  bytes ← read w
  λ self. returns (ordered self.endian host w (of_layout host bytes)) self

-- One byte has no order.
pub write_fuint8 : Endian → ℕ → M (Unit {0})
write_fuint8 host value = write (layout host 1 value)

pub write_fint8 : Endian → ℤ → M (Unit {0})
unfolding write_fuint8
write_fint8 host value = write_fuint8 host (to_unsigned (2 ^ 7) value)

pub write_fuint16 : Endian → ℕ → M (Unit {0})
unfolding write_fixed
write_fuint16 host value = write_fixed host 2 value

pub write_fint16 : Endian → ℤ → M (Unit {0})
unfolding write_fixed
write_fint16 host value = write_fixed host 2 (to_unsigned (2 ^ 15) value)

pub write_fuint32 : Endian → ℕ → M (Unit {0})
unfolding write_fixed
write_fuint32 host value = write_fixed host 4 value

pub write_fint32 : Endian → ℤ → M (Unit {0})
unfolding write_fixed
write_fint32 host value = write_fixed host 4 (to_unsigned (2 ^ 31) value)

pub write_fuint64 : Endian → ℕ → M (Unit {0})
unfolding write_fixed
write_fuint64 host value = write_fixed host 8 value

pub write_fint64 : Endian → ℤ → M (Unit {0})
unfolding write_fixed
write_fint64 host value = write_fixed host 8 (to_unsigned (2 ^ 63) value)

pub read_fuint8 : Endian → M ℕ
read_fuint8 host = do bytes ← read 1; pure (of_layout host bytes)

pub read_fint8 : Endian → M ℤ
read_fint8 host = do bytes ← read 1; pure (to_signed (2 ^ 7) (of_layout host bytes))

pub read_fuint16 : Endian → M ℕ
read_fuint16 host = read_fixed host 2

pub read_fint16 : Endian → M ℤ
read_fint16 host = do v ← read_fixed host 2; pure (to_signed (2 ^ 15) v)

pub read_fuint32 : Endian → M ℕ
read_fuint32 host = read_fixed host 4

pub read_fint32 : Endian → M ℤ
read_fint32 host = do v ← read_fixed host 4; pure (to_signed (2 ^ 31) v)

pub read_fuint64 : Endian → M ℕ
read_fuint64 host = read_fixed host 8

pub read_fint64 : Endian → M ℤ
read_fint64 host = do v ← read_fixed host 8; pure (to_signed (2 ^ 63) v)
