-- ===== src/System/Sending.antt =====
-- The sending half of a stream: the bytes that `Send` puts on a working link.
use plugo.Prelude.{
  ℕ, ◌+◌, ◌<◌, ◌^◌, ◌≡◌, sym, ◌∙◌, ◌++◌, arith, List, [], ◌∷◌, some, false, length, get_elem?,
  nat_eq, append_assoc, append-nil, All,
}
use plugo.Io.{ok}
use plugo.Context.{background}
use plugo.Wire.{StreamFrame, stream_flag_data}
use plugo.Wire.RoundTrip.{frame_bytes}
use plugo.Conn.{Stream, MessageConn}
use plugo.Reader.{channel}
use plugo.Stream.{send}
use plugo.System.Writes.{IsHealthy, with_rwc, put_output, write_stream_frame-frame_bytes}

-- The frame that `Send` makes, and the bytes of such frames in a row.
abbrev pub data_frame : ℕ → List ℕ → StreamFrame
data_frame id bs = record { stream_id = id; flags = stream_flag_data; payload = bs }

abbrev pub data_bytes : ℕ → List (List ℕ) → List ℕ
data_bytes id [] = []
data_bytes id (bs ∷ l) = frame_bytes (data_frame id bs) ++ data_bytes id l

abbrev pub FitsWrite : List ℕ → Type 0
FitsWrite bs = length bs + 12 < 2 ^ 32

module _ {V : Type 0} where
  -- `Send` of each payload in turn.
  pub send_all : ℕ → List (List ℕ) → MessageConn V → MessageConn V
  send_all ref [] m = m
  send_all ref (bs ∷ l) m = send_all ref l (send channel background ref bs m).1

  -- A working side with an open stream.
  pub record CanSend (id ref : ℕ) (m : MessageConn V) : Type 0 where
    pub healthy : IsHealthy m.rwc
    pub stream : Stream
    pub found : get_elem? m.objects ref ≡ some stream
    pub named : stream.id ≡ id
    pub live : stream.cancelled ≡ false

  pub send_data :
      (id ref : ℕ) (bs : List ℕ) (m : MessageConn V)
      → id < 2 ^ 32
      → CanSend id ref m
      → FitsWrite bs
      → send channel background ref bs m
        ≡ (ok tt, with_rwc (put_output (frame_bytes (data_frame id bs)) m.rwc) m)
  unfolding send
  send_data id ref bs m fits c h =
      rw (c.found, send)
        (rw (c.live, c.named)
          (write_stream_frame-frame_bytes (data_frame id bs) m
            (record { short = h; id_fits = fits; flags_fit = omega arith }) c.healthy))

  -- The sending side writes one frame for each payload.
  pub output-send_all :
      (id ref : ℕ) (l : List (List ℕ)) (m : MessageConn V)
      → id < 2 ^ 32
      → CanSend id ref m
      → All FitsWrite l
      → (send_all ref l m).rwc.output ≡ m.rwc.output ++ data_bytes id l
  unfolding send_all
  output-send_all id ref [] m fits c h = sym (append-nil m.rwc.output)
  output-send_all id ref (bs ∷ l) m fits c h =
      rw (send_all, send_data id ref bs m fits c h.0)
        (output-send_all id ref l (with_rwc (put_output (frame_bytes (data_frame id bs)) m.rwc) m)
            fits
            (record {
              healthy = record { usable = c.healthy.usable; writable = c.healthy.writable };
              stream = c.stream;
              found = c.found;
              named = c.named;
              live = c.live;
            })
            h.1
          ∙ append_assoc m.rwc.output _ _)
