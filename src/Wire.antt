-- ===== src/Wire.antt =====
-- The wire format of conn.go: a 12-byte big-endian header (length, stream id, flags) and the payload.
-- A buffer is a list of bytes, each a number; a `uint32` is a number below 2 ^ 32, and its arithmetic
-- wraps as written.
pub mod RoundTrip
pub mod Overflow
use plugo.Prelude.{
  ℕ, ◌+◌, ◌-◌, ◌*◌, ◌/◌, ◌%◌, ◌^◌, ◌++◌, Bool, not, List, [], ◌∷◌, Option, none, some, ltb,
  if◌then◌else◌, length, take, bit_and, ◌==◌, nat_eq,
}
use plugo.Io.{Result, ok, panics}

abbrev pub u32 : ℕ → ℕ
u32 n = n % 2 ^ 32

-- stream.go: the frame, its flags and the modes of a stream.
pub record StreamFrame : Type 0 where
  pub stream_id : ℕ
  pub flags : ℕ
  pub payload : List ℕ

abbrev pub stream_flag_start : ℕ
stream_flag_start = 1

abbrev pub stream_flag_data : ℕ
stream_flag_data = 2

abbrev pub stream_flag_close : ℕ
stream_flag_close = 4

abbrev pub stream_flag_error : ℕ
stream_flag_error = 8

abbrev pub stream_flag_close_write : ℕ
stream_flag_close_write = 16

abbrev pub stream_mode_bidi : ℕ
stream_mode_bidi = 0

abbrev pub stream_mode_single_multi : ℕ
stream_mode_single_multi = 1

abbrev pub stream_mode_multi_single : ℕ
stream_mode_multi_single = 2

-- `flags&flag != 0`
abbrev pub has_flag : ℕ → ℕ → Bool
has_flag flags flag = not (bit_and flags flag == 0)

-- `binary.BigEndian.PutUint32` into four bytes, and `Uint32` from four bytes.
unfoldable pub put_uint32 : ℕ → List ℕ
put_uint32 n = n / 2 ^ 24 % 256 ∷ n / 2 ^ 16 % 256 ∷ n / 2 ^ 8 % 256 ∷ n % 256 ∷ []

unfoldable pub uint32 : List ℕ → ℕ
uint32 (a ∷ b ∷ c ∷ d ∷ bs) = a * 2 ^ 24 + b * 2 ^ 16 + c * 2 ^ 8 + d
uint32 bs = 0

-- The buffer that `WriteData` and `writeStreamFrame` fill. `make([]byte, 12+length)` computes its
-- size as a `uint32`, and one of the three `PutUint32` panics if the size is below 12.
unfoldable pub frame_buffer : StreamFrame → Result (List ℕ)
frame_buffer f =
    let len = u32 (length f.payload) in
    let size = u32 (12 + len) in
    if ltb size 12
    then panics
    else ok (
        put_uint32 len
        ++ (put_uint32 f.stream_id ++ (put_uint32 f.flags ++ take (size - 12) f.payload)))
