-- ===== src/System/Replying.antt =====
-- The goroutine of a SingleMulti route: what its handler sends is written, in order, and then the stream is
-- closed.
use plugo.Prelude.{
  subst, ℕ, ◌<◌, ◌^◌, ◌≡◌, sym, ◌∙◌, ◌++◌, refl, arith, true, false, List, [], ◌∷◌, none, some,
  length, get_elem?, set, nat_eq, append_assoc, append-nil, All, get_elem?-set_self, get_elem?-lt,
  zero, suc,
}
use plugo.Io.{canceled, ok, fail, panics}
use plugo.Context.{Ctx, quiet, conn_with_context}
use plugo.Wire.{StreamFrame}
use plugo.Wire.RoundTrip.{IsSmall, frame_bytes, frame_buffer_small}
use plugo.Talk.{Sender, returns, sends, respond}
use plugo.Conn.{Stream, MessageConn, write_stream_frame, write_buffer}
use plugo.Reader.{channel}
use plugo.Stream.{send}
use plugo.Tasks.{stream_ctx, task_turn}
use plugo.System.Writes.{IsHealthy, put_output, with_rwc, write_healthy}
use plugo.System.Sending.{data_frame, data_bytes, FitsWrite, CanSend}
use plugo.System.Closing.{ClosedBy, turn-closes}

-- A handler that sends these payloads, and returns where a send fails.
unfoldable pub sender_of : List (List ℕ) → Sender
sender_of [] ds = returns (ok tt)
sender_of (bs ∷ l) [] = sends bs
sender_of (bs ∷ l) (ok _ ∷ ds) = sender_of l ds
sender_of (bs ∷ l) (fail e ∷ ds) = returns (fail e)
sender_of (bs ∷ l) (panics ∷ ds) = returns panics

-- A context that is not done and has no deadline.
abbrev calm : Ctx
calm = record { err = none; cancellable = true; deadline = none; moment = quiet; cause = canceled }

module _ {V : Type 0} where
  write_stream_frame-calm :
      (f : StreamFrame) (m : MessageConn V)
      → IsSmall f
      → IsHealthy m.rwc
      → write_stream_frame calm f m ≡ (ok tt, with_rwc (put_output (frame_bytes f) m.rwc) m)
  unfolding write_stream_frame conn_with_context
  write_stream_frame-calm f m s h =
      rw (frame_buffer_small f s.short, write_buffer) (rw (write_healthy (frame_bytes f) m.rwc h))

  stream_ctx-calm :
      (ref : ℕ) (s : Stream) (m : MessageConn V)
      → get_elem? m.objects ref ≡ some s
      → s.cancelled ≡ false
      → stream_ctx quiet ref m ≡ calm
  stream_ctx-calm ref s m e h = rw e (rw h refl)

  send-calm :
      (id ref : ℕ) (bs : List ℕ) (m : MessageConn V)
      → id < 2 ^ 32
      → CanSend id ref m
      → FitsWrite bs
      → send channel (stream_ctx quiet ref m) ref bs m
        ≡ (ok tt, with_rwc (put_output (frame_bytes (data_frame id bs)) m.rwc) m)
  unfolding send
  send-calm id ref bs m fits c h = rw (stream_ctx-calm ref c.stream m c.found c.live) (
      rw (c.found, send)
        (rw (c.live, c.named)
          (write_stream_frame-calm (data_frame id bs) m
            (record { short = h; id_fits = fits; flags_fit = omega arith }) c.healthy)))

  abbrev written : ℕ → ℕ → List ℕ → List (List ℕ) → ℕ → MessageConn V → MessageConn V
  written id ref bs l i m = record m {
    rwc = put_output (frame_bytes (data_frame id bs)) m.rwc;
    tasks = set m.tasks i (ref, respond (sender_of l));
  }

  -- One call of `sender`.
  turn-sends :
      (id ref i : ℕ) (bs : List ℕ) (l : List (List ℕ)) (m : MessageConn V)
      → id < 2 ^ 32
      → CanSend id ref m
      → FitsWrite bs
      → get_elem? m.tasks i ≡ some (ref, respond (sender_of (bs ∷ l)))
      → task_turn channel quiet i m ≡ written id ref bs l i m
  unfolding task_turn respond sender_of
  turn-sends id ref i bs l m fits c h e =
      rw (task_turn, e) (rw (send-calm id ref bs m fits c h) refl)

  -- n calls of one goroutine, with nothing between them.
  unfoldable pub turns : ℕ → ℕ → MessageConn V → MessageConn V
  turns zero i m = m
  turns (suc n) i m = turns n i (task_turn channel quiet i m)

  -- What is so behind the calls of `sender`.
  record Sent (id ref i : ℕ) (l : List (List ℕ)) (m m' : MessageConn V) : Type 0 where
    output_is : m'.rwc.output ≡ m.rwc.output ++ data_bytes id l
    task_is : get_elem? m'.tasks i ≡ some (ref, respond (sender_of []))
    can_send : CanSend id ref m'

  turns-Sent :
      (id ref i : ℕ) (l : List (List ℕ)) (m : MessageConn V)
      → id < 2 ^ 32
      → CanSend id ref m
      → All FitsWrite l
      → get_elem? m.tasks i ≡ some (ref, respond (sender_of l))
      → Sent id ref i l m (turns (length l) i m)
  unfolding turns
  turns-Sent id ref i [] m fits c h e = record {
    output_is = sym (append-nil m.rwc.output);
    task_is = e;
    can_send = c;
  }
  turns-Sent id ref i (bs ∷ l) m fits c h e =
      let m₁ = written id ref bs l i m in
      let rest =
        turns-Sent id ref i l m₁ fits
          (record {
            healthy = record { usable = c.healthy.usable; writable = c.healthy.writable };
            stream = c.stream;
            found = c.found;
            named = c.named;
            live = c.live;
          })
          h.1 (get_elem?-set_self m.tasks i _ (get_elem?-lt m.tasks i _ e)) in
      rw (turns, turn-sends id ref i bs l m fits c h.0 e)
        (record {
          output_is = rest.output_is ∙ append_assoc m.rwc.output _ _;
          task_is = rest.task_is;
          can_send = rest.can_send;
        })

  -- On a working connection with the route's stream open, the goroutine of a SingleMulti route whose handler
  -- sends any payloads, each short enough for a frame, writes them as data frames of its stream, in order
  -- and with nothing between them, if no context ends. Its next act after the handler's return closes the
  -- stream: it writes the close frame behind the data, cancels the stream, takes it out of the map, and
  -- leaves the goroutine at its end.
  pub output-respond :
      (id ref i : ℕ) (l : List (List ℕ)) (m : MessageConn V)
      → id < 2 ^ 32
      → CanSend id ref m
      → All FitsWrite l
      → get_elem? m.tasks i ≡ some (ref, respond (sender_of l))
      → ((turns (length l) i m).rwc.output ≡ m.rwc.output ++ data_bytes id l)
        × ClosedBy id ref i
            (m.rwc.output ++ data_bytes id l)
            (task_turn channel quiet i (turns (length l) i m))
  unfolding respond sender_of
  output-respond id ref i l m fits c h e =
      let s = turns-Sent id ref i l m fits c h e in
      let m' = task_turn channel quiet i (turns (length l) i m) in
      (
        s.output_is,
        subst (λ bs. ClosedBy id ref i bs m') s.output_is
            (turn-closes id ref i (respond (sender_of [])) s.can_send.stream (turns (length l) i m)
              fits s.can_send.healthy s.can_send.found s.can_send.named s.task_is refl refl),
      )
