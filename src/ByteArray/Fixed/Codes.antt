-- ===== src/ByteArray/Fixed/Codes.antt =====
-- The codes of the unsigned integers, for the strings that begin with one.
use fatdog.Base.{ℕ, ◌<◌, ◌^◌, arith}
use fatdog.ByteArray.State.{Endian}
use fatdog.ByteArray.Endian.{layout}
use fatdog.ByteArray.Raw.Ahead.{Encodes, Decodes}
use fatdog.ByteArray.Fixed.{
  write_fuint16, write_fuint32, write_fuint64, read_fuint16, read_fuint32, read_fuint64,
}
use fatdog.ByteArray.Fixed.RoundTrip.{write_fixed-Encodes, read_fixed-Decodes}

module _ (host en : Endian) (v : ℕ) where
  pub write_fuint16-Encodes : Encodes en (write_fuint16 host v) (layout en 2 v)
  unfolding write_fuint16
  write_fuint16-Encodes = write_fixed-Encodes host en 2 v

  pub read_fuint16-Decodes : v < 2 ^ 16 → Decodes en (read_fuint16 host) (layout en 2 v) v
  unfolding read_fuint16
  read_fuint16-Decodes h = read_fixed-Decodes host en 2 v (omega arith) h

  pub write_fuint32-Encodes : Encodes en (write_fuint32 host v) (layout en 4 v)
  unfolding write_fuint32
  write_fuint32-Encodes = write_fixed-Encodes host en 4 v

  pub read_fuint32-Decodes : v < 2 ^ 32 → Decodes en (read_fuint32 host) (layout en 4 v) v
  unfolding read_fuint32
  read_fuint32-Decodes h = read_fixed-Decodes host en 4 v (omega arith) h

  pub write_fuint64-Encodes : Encodes en (write_fuint64 host v) (layout en 8 v)
  unfolding write_fuint64
  write_fuint64-Encodes = write_fixed-Encodes host en 8 v

  pub read_fuint64-Decodes : v < 2 ^ 64 → Decodes en (read_fuint64 host) (layout en 8 v) v
  unfolding read_fuint64
  read_fuint64-Decodes h = read_fixed-Decodes host en 8 v (omega arith) h
