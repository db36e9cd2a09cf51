-- ===== src/System/Cut.antt =====
-- A write of 4 GiB or more, from `WriteData` to what the peer reads.
use plugo.Prelude.{
  ℕ, ◌+◌, ◌%◌, ◌≤◌, ◌<◌, ◌^◌, ◌≡◌, refl, ◌++◌, ◌∙◌, sym, ap, arith, List, length, take, drop,
  length-take, drop-length-append,
}
use plugo.Io.{Rwc, ok}
use plugo.Context.{background, conn_with_context}
use plugo.Wire.{StreamFrame, frame_buffer}
use plugo.Wire.RoundTrip.{IsReadable, frame_bytes, header, read_frame-frame_bytes}
use plugo.Wire.Overflow.{frame_buffer_cut}
use plugo.Conn.{MessageConn, write_data, write_buffer}
use plugo.Reader.{read_frame}
use plugo.System.Writes.{IsHealthy, put_output, with_rwc, write_healthy}

-- The low 32 bits of the length, and the message that many bytes long.
abbrev low : List ℕ → ℕ
low bs = length bs % 2 ^ 32

abbrev pub cut_message : List ℕ → StreamFrame
cut_message bs = record { stream_id = 0; flags = 0; payload = take (low bs) bs }

length-cut : (bs : List ℕ) → length (take (low bs) bs) ≡ low bs
length-cut bs = omega (arith, length-take (low bs) bs)

frame_buffer-cut_message :
    (bs : List ℕ)
    → low bs + 12 < 2 ^ 32
    → frame_buffer (record { stream_id = 0; flags = 0; payload = bs })
      ≡ ok (frame_bytes (cut_message bs))
frame_buffer-cut_message bs h =
    frame_buffer_cut (record { stream_id = 0; flags = 0; payload = bs }) h
    ∙ ap (λ n. ok (header n 0 0 ++ take (low bs) bs)) (sym (length-cut bs))

module _ {V : Type 0} where
  write_data-cut_message :
      (bs : List ℕ) (m : MessageConn V)
      → IsHealthy m.rwc
      → low bs + 12 < 2 ^ 32
      → write_data background bs m
        ≡ (ok tt, with_rwc (put_output (frame_bytes (cut_message bs)) m.rwc) m)
  unfolding write_data conn_with_context
  write_data-cut_message bs m w h =
      rw (frame_buffer-cut_message bs h, write_buffer)
        (rw (write_healthy (frame_bytes (cut_message bs)) m.rwc w) refl)

  -- A message of 2 ^ 32 bytes or more, on a working connection, where the low 32 bits of its length are
  -- none of the twelve largest values: `WriteData` returns nil, and from what it has written the peer
  -- reads a message of that many bytes only, the first ones, which is shorter.
  pub read_frame-write_data :
      (bs rest : List ℕ) (m : MessageConn V) (r : Rwc)
      → 2 ^ 32 ≤ length bs
      → length bs % 2 ^ 32 + 12 < 2 ^ 32
      → IsHealthy m.rwc
      → IsReadable r
      → r.input ≡ drop (length m.rwc.output) (write_data background bs m).1.rwc.output ++ rest
      → ((write_data background bs m).0 ≡ ok tt)
        × (read_frame r ≡ (ok (cut_message bs), record r { input = rest }))
        × (length (cut_message bs).payload ≡ length bs % 2 ^ 32)
        × (length (cut_message bs).payload < length bs)
  read_frame-write_data bs rest m r long h w u i =
      let e = write_data-cut_message bs m w h in
      let sent =
        ap (λ x. drop (length m.rwc.output) x.1.rwc.output ++ rest) e
        ∙ ap (λ l. l ++ rest) (drop-length-append m.rwc.output (frame_bytes (cut_message bs))) in
      (
        ap (λ x. x.0) e,
        read_frame-frame_bytes (cut_message bs) rest r
            (record {
              short = omega (arith, h, length-cut bs);
              id_fits = omega arith;
              flags_fit = omega arith;
            })
            u (i ∙ sent),
        length-cut bs,
        omega (arith, long, length-cut bs),
      )
