-- ===== src/System/Storm.antt =====
-- Two connections that do not know a stream answer each other's error frames without end. This is
-- what is left behind by a stream that both sides close.
use plugo.Prelude.{
  ℕ, zero, suc, ◌<◌, ◌^◌, ◌≡◌, ◌≢◌, refl, ◌++◌, arith, List, [], none, false, lookup, nat_eq,
  append-nil, nat_beq_ne, ap, ◌∙◌, sym,
}
use plugo.Wire.{StreamFrame, has_flag, stream_flag_start}
use plugo.Wire.RoundTrip.{IsSmall, frame_bytes}
use plugo.Conn.{MessageConn, reading}
use plugo.Reader.{Pick, channel, loop_turn, turned, receive, receive_unknown, not_found_frame}
use plugo.System.{after_turn}
use plugo.System.Writes.{
  IsHealthy, with_rwc, put_output, rest_input, write_stream_frame-frame_bytes,
  loop_turn-frame_bytes,
}

not_found-IsSmall : (id : ℕ) → id < 2 ^ 32 → IsSmall (not_found_frame id)
not_found-IsSmall id h = record { short = omega arith; id_fits = h; flags_fit = omega arith }

module _ {V : Type 0} where
  -- An idle connection over a working link, with no stream under the id.
  pub record Unaware (id : ℕ) (m : MessageConn V) : Type 0 where
    pub idle : m.loop ≡ reading
    pub healthy : IsHealthy m.rwc
    pub unknown : lookup id m.streams ≡ none

  -- One side takes a turn, and what it has written travels to the other side.
  pub volley : MessageConn V × MessageConn V → MessageConn V × MessageConn V
  unfolding loop_turn
  volley (a, b) =
      let a' = after_turn (loop_turn channel a) a in
      (
        with_rwc (record (b.rwc) { input = b.rwc.input ++ a'.rwc.output }) b,
        with_rwc (record (a'.rwc) { output = [] }) a',
      )

  pub rally : ℕ → MessageConn V × MessageConn V → MessageConn V × MessageConn V
  unfolding volley
  rally zero p = p
  rally (suc n) p = rally n (volley p)

  -- The frame is on its way to the first of two unaware sides, and nothing else is.
  pub record InFlight (id : ℕ) (f : StreamFrame) (p : MessageConn V × MessageConn V) : Type 0 where
    pub left : Unaware id p.0
    pub right : Unaware id p.1
    pub incoming : p.0.rwc.input ≡ frame_bytes f
    pub quiet_left : p.0.rwc.output ≡ []
    pub quiet_right : p.1.rwc.input ≡ []
    pub silent : p.1.rwc.output ≡ []

  -- A frame that starts no stream, for an id that is unknown, is answered by an error frame.
  pub loop_turn-unknown :
      (pick : Pick) (f : StreamFrame) (rest : List ℕ) (m : MessageConn V)
      → IsSmall f
      → f.stream_id ≢ 0
      → has_flag f.flags stream_flag_start ≡ false
      → Unaware f.stream_id m
      → m.rwc.input ≡ frame_bytes f ++ rest
      → loop_turn pick m
        ≡ turned (
            with_rwc
              (put_output (frame_bytes (not_found_frame f.stream_id)) (rest_input rest m.rwc))
              m)
  unfolding receive receive_unknown
  loop_turn-unknown pick f rest m s ne start u i =
      rw
        (
          loop_turn-frame_bytes pick f rest m u.idle s u.healthy.usable i,
          nat_beq_ne f.stream_id 0 ne,
          u.unknown,
          start,
        )
        (ap (λ p. turned (p.1))
          (write_stream_frame-frame_bytes (not_found_frame f.stream_id)
            (with_rwc (rest_input rest m.rwc) m) (not_found-IsSmall f.stream_id s.id_fits)
            (record { usable = u.healthy.usable; writable = u.healthy.writable })))

  volley-InFlight :
      (f : StreamFrame) (p : MessageConn V × MessageConn V)
      → IsSmall f
      → f.stream_id ≢ 0
      → has_flag f.flags stream_flag_start ≡ false
      → InFlight f.stream_id f p
      → InFlight f.stream_id (not_found_frame f.stream_id) (volley p)
  unfolding volley
  volley-InFlight f (a, b) s ne start h =
      rw
        (
          loop_turn-unknown channel f [] a s ne start h.left
              (h.incoming ∙ sym (append-nil (frame_bytes f))),
          volley,
        )
        (record {
          left = record {
            idle = h.right.idle;
            healthy = record {
              usable = h.right.healthy.usable;
              writable = h.right.healthy.writable;
            };
            unknown = h.right.unknown;
          };
          right = record {
            idle = h.left.idle;
            healthy = record { usable = h.left.healthy.usable; writable = h.left.healthy.writable };
            unknown = h.left.unknown;
          };
          incoming = rw (h.quiet_right, h.quiet_left);
          quiet_left = h.silent;
          quiet_right = refl;
          silent = refl;
        })

  -- A frame that starts no stream arrives at two sides that do not know its stream, such as the close
  -- frame of a stream that both have closed. However many volleys they have played since, one error
  -- frame for that stream is still on its way between them.
  pub rally-InFlight :
      (n : ℕ) (f : StreamFrame) (p : MessageConn V × MessageConn V)
      → IsSmall f
      → f.stream_id ≢ 0
      → has_flag f.flags stream_flag_start ≡ false
      → InFlight f.stream_id f p
      → InFlight f.stream_id (not_found_frame f.stream_id) (rally (suc n) p)
  unfolding rally
  rally-InFlight zero f p s ne start h = volley-InFlight f p s ne start h
  rally-InFlight (suc n) f p s ne start h =
      rally-InFlight n (not_found_frame f.stream_id) (volley p)
        (not_found-IsSmall f.stream_id s.id_fits) ne refl (volley-InFlight f p s ne start h)
