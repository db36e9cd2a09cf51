-- ===== src/Wire/RoundTrip.antt =====
-- The header fields survive the wire.
use plugo.Prelude.{
  [], sym, subst, ℕ, ◌+◌, ◌<◌, ◌^◌, ◌≡◌, refl, ◌++◌, List, arith, length, take_all, drop, ◌∙◌, none,
  ◌∷◌, ap, length-append, append_assoc, take-length-append, drop-length-append, suc_beq_zero,
}
use plugo.Io.{Failure, ok, ok_eq, Rwc, refusal, read_full, wrapped, wrap_io}
use plugo.Reader.{read_frame, read_payload}
use plugo.Wire.{StreamFrame, put_uint32, uint32, frame_buffer}

pub length-put_uint32 : (n : ℕ) → length (put_uint32 n) ≡ 4
unfolding put_uint32
length-put_uint32 n = refl

pub uint32-put_uint32 : (n : ℕ) (bs : List ℕ) → n < 2 ^ 32 → uint32 (put_uint32 n ++ bs) ≡ n
unfolding put_uint32 uint32
uint32-put_uint32 n bs h = omega arith

abbrev pub header : ℕ → ℕ → ℕ → List ℕ
header len id flags = put_uint32 len ++ (put_uint32 id ++ put_uint32 flags)

pub frame_buffer_small :
    (f : StreamFrame)
    → length f.payload + 12 < 2 ^ 32
    → frame_buffer f ≡ ok (header (length f.payload) f.stream_id f.flags ++ f.payload)
unfolding frame_buffer put_uint32
frame_buffer_small f h = ground (arith, take_all (length f.payload) f.payload)

-- A frame whose numbers fit their fields, and whose payload fits a write.
pub record IsSmall (f : StreamFrame) : Type 0 where
  pub short : length f.payload + 12 < 2 ^ 32
  pub id_fits : f.stream_id < 2 ^ 32
  pub flags_fit : f.flags < 2 ^ 32

-- The bytes of such a frame.
abbrev pub frame_bytes : StreamFrame → List ℕ
frame_bytes f = header (length f.payload) f.stream_id f.flags ++ f.payload

-- A connection that can be read from.
abbrev pub IsReadable : Rwc → Type 0
IsReadable r = refusal r ≡ none

pub read_full-append :
    (bs rest : List ℕ) (r : Rwc)
    → IsReadable r
    → r.input ≡ bs ++ rest
    → read_full (length bs) r ≡ (ok bs, record r { input = rest })
unfolding read_full
read_full-append bs rest r h e = ground (
  arith,
  ap length e,
  length-append bs rest,
  take-length-append bs rest,
  drop-length-append bs rest,
)

pub length-header : (len id flags : ℕ) → length (header len id flags) ≡ 12
unfolding put_uint32
length-header len id flags = refl

read_payload-append :
    (w : Failure → Failure) (bs rest : List ℕ) (r : Rwc)
    → IsReadable r
    → r.input ≡ bs ++ rest
    → read_payload w (length bs) r ≡ (ok bs, record r { input = rest })
read_payload-append w [] rest r h e = ground arith
read_payload-append w (b ∷ bs) rest r h e =
    rw (suc_beq_zero (length bs)) (ap (wrap_io w) (read_full-append (b ∷ bs) rest r h e))

pub read_header :
    (len id flags : ℕ) (rest : List ℕ) (r : Rwc)
    → IsReadable r
    → r.input ≡ header len id flags ++ rest
    → read_full 12 r ≡ (ok (header len id flags), record r { input = rest })
read_header len id flags rest r h e =
    subst (λ n. read_full n r ≡ (ok (header len id flags), record r { input = rest }))
      (length-header len id flags) (read_full-append (header len id flags) rest r h e)

pub header_fields :
    (len id flags : ℕ)
    → len < 2 ^ 32
    → id < 2 ^ 32
    → flags < 2 ^ 32
    → (uint32 (header len id flags) ≡ len)
      × (uint32 (drop 4 (header len id flags)) ≡ id)
      × (uint32 (drop 8 (header len id flags)) ≡ flags)
unfolding put_uint32 uint32
header_fields len id flags h i j = (omega arith, omega arith, omega arith)

-- Its bytes the read loop reads as the frame.
pub read_frame-frame_bytes :
    (f : StreamFrame) (rest : List ℕ) (r : Rwc)
    → IsSmall f
    → IsReadable r
    → r.input ≡ frame_bytes f ++ rest
    → read_frame r ≡ (ok f, record r { input = rest })
unfolding read_frame
read_frame-frame_bytes f rest r s h e =
    let (len, id, flags) =
      header_fields (length f.payload) f.stream_id f.flags (omega arith) s.id_fits s.flags_fit in
    rw
      (
        read_header (length f.payload) f.stream_id f.flags (f.payload ++ rest) r h
            (e ∙ append_assoc _ f.payload rest),
        read_frame,
        len,
        id,
        flags,
      )
      (rw (
        read_payload-append (wrapped "failed to read stream frame payload") f.payload rest
          (record r { input = f.payload ++ rest }) h refl))

-- For a frame whose numbers fit their fields and whose payload is short enough for a write, on a
-- connection that can be read from: what the buffer of a write holds for it, with any bytes behind, the
-- read loop of the other side reads back as the same frame, and it stops at the first byte behind it.
pub read_frame-frame_buffer :
    (f : StreamFrame) (bs rest : List ℕ) (r : Rwc)
    → IsSmall f
    → IsReadable r
    → frame_buffer f ≡ ok bs
    → r.input ≡ bs ++ rest
    → read_frame r ≡ (ok f, record r { input = rest })
read_frame-frame_buffer f bs rest r s h e i =
    read_frame-frame_bytes f rest r s h
      (i ∙ ap (λ l. l ++ rest) (ok_eq (sym e ∙ frame_buffer_small f s.short)))
