-- ===== src/ByteArray/CodeRuns.antt =====
-- The theorems on the encodings of numbers and strings at concrete inputs.
use fatdog.Base.{◌-◌, ◌≤◌, ◌^◌, ◌≡◌, refl, inl, [], ◌∷◌, ◌++◌, some, length, arith}
use fatdog.Base.Signed.{pos, negsuc, to_unsigned}
use fatdog.ByteArray.State.{ByteArray, little, big, crash, init}
use fatdog.ByteArray.Endian.{layout}
use fatdog.ByteArray.Raw.Valid.{IsValid, view, init-IsValid}
use fatdog.ByteArray.Raw.Valid.{contents}
use fatdog.ByteArray.Endian.{le_bytes}
use fatdog.ByteArray.Raw.Ahead.{ahead, Fits}
use fatdog.ByteArray.Fixed.{
  write_fuint8, write_fint8, write_fuint16, write_fint16, write_fuint32, write_fint32,
  write_fuint64, write_fint64, read_fuint8, read_fint8, read_fuint16, read_fint16, read_fuint32,
  read_fint32, read_fuint64, read_fint64,
}
use fatdog.ByteArray.Fixed.RoundTrip.{RoundTrips, unsigned-RoundTrips, signed-RoundTrips}
use fatdog.ByteArray.Varint.{
  write_uint32, write_uint64, write_int32, write_int64, read_uint32, read_uint64, read_int32,
  read_int64, write_code, encode_zigzag, encode_zigzag32, encode_zigzag64,
}
use fatdog.ByteArray.Varint.Encode.{varint}
use fatdog.ByteArray.Varint.RoundTrip.{varint-RoundTrips, signed_varint-RoundTrips}
use fatdog.ByteArray.Strings.{
  write_string_f64, write_string_vint, read_string_f16, read_string_f64, read_string_vint,
}
use fatdog.ByteArray.Strings.RoundTrip.{long_string-RoundTrips}
use fatdog.ByteArray.Strings.Errors.{read_string_f16_crash}
use fatdog.ByteArray.Runs.{three, loaded}

-- A node of sixteen bytes, empty.
abbrev wide : ByteArray
wide = init (λ i. i) 16

wide-IsValid : IsValid wide
wide-IsValid = init-IsValid (λ i. i) 16 (omega arith) (omega arith)

eight_fit : Fits wide 8
unfolding init
eight_fit = (omega arith, inl (omega arith))

ten_fit : Fits wide 10
unfolding init
ten_fit = (omega arith, inl (omega arith))

thirteen_fit : Fits wide 13
unfolding init
thirteen_fit = (omega arith, inl (omega arith))

unsigned-RoundTrips_example :
    RoundTrips wide (write_fuint8 little 200) (read_fuint8 little) 200 (200 ∷ [])
    × RoundTrips wide
        (write_fuint16 little 300)
        (read_fuint16 little)
        300
        (layout wide.endian 2 300)
    × RoundTrips wide (write_fuint32 little 5) (read_fuint32 little) 5 (layout wide.endian 4 5)
    × RoundTrips wide (write_fuint64 little 6) (read_fuint64 little) 6 (layout wide.endian 8 6)
unsigned-RoundTrips_example =
    unsigned-RoundTrips little wide wide-IsValid eight_fit 200 300 5 6 (omega arith) (omega arith)
      (omega arith) (omega arith)

signed-RoundTrips_example :
    RoundTrips wide
      (write_fint8 little (negsuc 0))
      (read_fint8 little)
      (negsuc 0)
      (to_unsigned (2 ^ 7) (negsuc 0) ∷ [])
    × RoundTrips wide
        (write_fint16 little (negsuc 1))
        (read_fint16 little)
        (negsuc 1)
        (layout wide.endian 2 (to_unsigned (2 ^ 15) (negsuc 1)))
    × RoundTrips wide
        (write_fint32 little (pos 3))
        (read_fint32 little)
        (pos 3)
        (layout wide.endian 4 (to_unsigned (2 ^ 31) (pos 3)))
    × RoundTrips wide
        (write_fint64 little (negsuc 9))
        (read_fint64 little)
        (negsuc 9)
        (layout wide.endian 8 (to_unsigned (2 ^ 63) (negsuc 9)))
signed-RoundTrips_example =
    signed-RoundTrips little wide wide-IsValid eight_fit (negsuc 0) (negsuc 1) (pos 3) (negsuc 9)
      (omega arith) (omega arith) (omega arith) (omega arith)

varint-RoundTrips_example :
    RoundTrips wide (write_uint32 300) (read_uint32 big) 300 (varint 4 300)
    × (length (varint 4 300) ≤ 5)
    × RoundTrips wide (write_uint64 70000) (read_uint64 big) 70000 (varint 9 70000)
    × (length (varint 9 70000) ≤ 10)
varint-RoundTrips_example =
    varint-RoundTrips big wide wide-IsValid 300 70000 (omega arith) (omega arith) ten_fit

signed_varint-RoundTrips_example :
    RoundTrips wide (write_int32 (negsuc 4)) (read_int32 big) (negsuc 4) (varint 4 9)
    × RoundTrips wide (write_int64 (pos 80)) (read_int64 big) (pos 80) (varint 9 160)
signed_varint-RoundTrips_example =
    signed_varint-RoundTrips big wide wide-IsValid (negsuc 4) (pos 80) (omega arith) (omega arith)
      ten_fit

-- v * 2 of 2^30 is no int32_t, and of 2^62 no int64_t; nor is -v of the least value.
undefined_codes :
    (write_int32 (pos (2 ^ 30)) wide ≡ crash)
    × (write_int32 (negsuc (2 ^ 31 - 1)) wide ≡ crash)
    × (write_int64 (pos (2 ^ 62)) wide ≡ crash)
    × (write_int64 (negsuc (2 ^ 63 - 1)) wide ≡ crash)
unfolding write_int32 write_int64 write_code encode_zigzag32 encode_zigzag64 encode_zigzag
undefined_codes = (refl, refl, refl, refl)

long_string-RoundTrips_example :
    RoundTrips wide
      (write_string_f64 little three)
      (read_string_f64 little)
      three
      (layout wide.endian 8 3 ++ three)
    × RoundTrips wide
        (write_string_vint three)
        (read_string_vint little)
        three
        (varint 9 3 ++ three)
long_string-RoundTrips_example =
    long_string-RoundTrips little wide three wide-IsValid (omega arith) thirteen_fit

-- At the last two bytes of the capacity, an empty string.
abbrev last_two : ByteArray
last_two = record loaded { position = 6; size = 8; cur = some 1 }

last_two-IsValid : IsValid last_two
last_two-IsValid = record {
  has_base = omega arith;
  chain = ((refl, refl), ((refl, refl), tt));
  rooted = omega arith;
  filled = refl;
  in_size = omega arith;
  in_capacity = omega arith;
  small = omega arith;
  at_cur = (omega arith, omega arith, omega arith);
}

read_string_f16_crash_example : read_string_f16 little last_two ≡ crash
unfolding ahead view contents layout le_bytes
read_string_f16_crash_example =
    read_string_f16_crash little last_two 0 [] last_two-IsValid (omega arith) refl refl refl
