-- ===== src/Wire/Overflow.antt =====
-- What the 32-bit size of `make([]byte, 12+length)` does to payloads near and beyond 4 GiB.
use plugo.Prelude.{◌+◌, ◌%◌, ◌≤◌, ◌<◌, ◌^◌, ◌≡◌, ◌↔◌, ◌++◌, arith, length, take}
use plugo.Io.{ok, panics}
use plugo.Wire.{StreamFrame, put_uint32, frame_buffer}
use plugo.Wire.RoundTrip.{header}

-- The write panics exactly if the low 32 bits of the payload's length are one of the twelve largest
-- values.
pub frame_buffer-eq-panics :
    (f : StreamFrame) → (frame_buffer f ≡ panics) ↔ (2 ^ 32 ≤ length f.payload % 2 ^ 32 + 12)
unfolding frame_buffer
frame_buffer-eq-panics f = (λ h. ground arith, λ h. ground arith)

-- Otherwise the frame holds the low 32 bits of the length, and that many bytes of the payload: a
-- payload of 2 ^ 32 bytes or more is cut.
pub frame_buffer_cut :
    (f : StreamFrame)
    → length f.payload % 2 ^ 32 + 12 < 2 ^ 32
    → frame_buffer f
      ≡ ok (
          header (length f.payload % 2 ^ 32) f.stream_id f.flags
          ++ take (length f.payload % 2 ^ 32) f.payload)
unfolding frame_buffer put_uint32
frame_buffer_cut f h = ground arith
