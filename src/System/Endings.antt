-- ===== src/System/Endings.antt =====
-- What a caller learns of the end of its stream from the peer's error and close frames.
use plugo.Prelude.{
  ℕ, ◌+◌, ◌<◌, ◌^◌, ◌≡◌, ◌≢◌, refl, ap, ◌++◌, arith, true, false, List, [], ◌∷◌, Option, none, some,
  length, get_elem?, delete, nat_eq, set, get_elem?-set_self, get_elem?-lt, nat_beq_ne,
}
use plugo.Io.{Result, ok, fail, eof, text_bytes}
use plugo.Context.{Ctx, Moment}
use plugo.Wire.{StreamFrame, stream_flag_error, stream_flag_close}
use plugo.Wire.RoundTrip.{frame_bytes}
use plugo.Chan
use plugo.Chan.{recv_from}
use plugo.Conn.{Stream, MessageConn, cancel_at, push_frame, reading}
use plugo.Reader.{
  Pick, channel, stream_done, Attempt, returned, waits, turned, loop_turn, receive, deliver,
  push_to, close_at, close_stream,
}
use plugo.Stream.{read_out, recv_poll, recv_select}
use plugo.Routing.{recv, await_single, single_response}
use plugo.System.{after_turn}
use plugo.System.Writes.{rest_input, loop_turn-frame_bytes}
use plugo.System.Transfer.{Receiving, with_item}

abbrev pub error_frame : ℕ → List ℕ → StreamFrame
error_frame id bs = record { stream_id = id; flags = stream_flag_error; payload = bs }

abbrev pub close_frame : ℕ → StreamFrame
close_frame id = record { stream_id = id; flags = stream_flag_close; payload = [] }

abbrev pub result_of : {A S : Type 0} → Attempt A S → Option (Result A)
result_of (returned r m) = some r
result_of waits = none

module _ {V : Type 0} where
  abbrev pub turn_by : Pick → MessageConn V → MessageConn V
  turn_by pick m = after_turn (loop_turn pick m) m

  module _ (ref : ℕ) (m : MessageConn V) (s : Stream) (e : get_elem? m.objects ref ≡ some s) where
    poll_queued :
        (f : StreamFrame) (rest : List StreamFrame)
        → s.recv_ch.items ≡ f ∷ rest
        → result_of (recv_poll ref m) ≡ some (read_out f).0
    unfolding recv_poll
    poll_queued f rest q = rw (e, recv_poll, result_of) (rw (q, recv_from, result_of))

    poll_closed :
        s.recv_ch.items ≡ [] → s.recv_ch.closed ≡ true → recv_poll ref m ≡ returned (fail eof) m
    unfolding recv_poll
    poll_closed q c = rw (e, recv_poll) (rw (q, c, recv_from))

    poll_empty : s.recv_ch.items ≡ [] → s.recv_ch.closed ≡ false → recv_poll ref m ≡ waits
    unfolding recv_poll
    poll_empty q c = rw (e, recv_poll) (rw (q, c, recv_from))

    select_cancelled :
        (ctx : Ctx)
        → s.recv_ch.items ≡ []
        → s.recv_ch.closed ≡ false
        → s.cancelled ≡ true
        → recv_select stream_done ctx ref m ≡ returned (fail eof) m
    unfolding recv_select
    select_cancelled ctx q c k = rw (e, recv_select) (rw (k, q, c))

    recv_cancelled :
        (ctx : Ctx)
        → s.recv_ch.items ≡ []
        → s.recv_ch.closed ≡ false
        → s.cancelled ≡ true
        → recv stream_done ctx ref m ≡ returned (fail eof) m
    unfolding recv
    recv_cancelled ctx q c k = rw (poll_empty q c, recv) (select_cancelled ctx q c k)

  result-recv :
      (pick : Pick) (ctx : Ctx) (ref : ℕ) (m : MessageConn V) (r : Result (List ℕ))
      → result_of (recv_poll ref m) ≡ some r
      → result_of (recv pick ctx ref m) ≡ some r
  unfolding recv
  result-recv pick ctx ref m r h = ground arith

  -- `Recv` returns what the oldest queued frame says, whichever contexts are done and whichever case
  -- its selects would take.
  pub recv_queued :
      (pick : Pick) (ctx : Ctx) (ref : ℕ) (m : MessageConn V) (s : Stream) (f : StreamFrame)
      (rest : List StreamFrame)
      → get_elem? m.objects ref ≡ some s
      → s.recv_ch.items ≡ f ∷ rest
      → result_of (recv pick ctx ref m) ≡ some (read_out f).0
  recv_queued pick ctx ref m s f rest e q =
      result-recv pick ctx ref m (read_out f).0 (poll_queued ref m s e f rest q)

  module _ (id ref : ℕ) (m : MessageConn V) (fits : id < 2 ^ 32) (ne : id ≢ 0) where
    module _ (bs : List ℕ) (short : length bs + 12 < 2 ^ 32)
        (r : Receiving id ref [] (frame_bytes (error_frame id bs) ++ []) m) where
      abbrev halted : Stream
      halted = record (r.stream) { cancelled = true }

      abbrev halfway : MessageConn V
      halfway = record m {
        rwc = rest_input [] m.rwc;
        objects = set m.objects ref halted;
        loop = push_frame ref (error_frame id bs);
      }

      found_halfway : get_elem? (set m.objects ref halted) ref ≡ some halted
      found_halfway =
          get_elem?-set_self m.objects ref halted (get_elem?-lt m.objects ref r.stream r.found)

      error_turn : loop_turn channel m ≡ turned halfway
      unfolding receive deliver
      error_turn =
          rw
            (
              loop_turn-frame_bytes channel (error_frame id bs) [] m r.idle
                  (record { short = short; id_fits = fits; flags_fit = omega arith }) r.usable
                  r.incoming,
              nat_beq_ne id 0 ne,
              r.known,
            )
            (rw (r.found, cancel_at) refl)

      dropped :
          loop_turn stream_done halfway
          ≡ turned (record halfway { streams = delete id m.streams; loop = reading })
      unfolding loop_turn push_to
      dropped = rw (found_halfway, push_to) refl

      sent_turn :
          loop_turn channel halfway
          ≡ turned (record halfway {
            objects = set (set m.objects ref halted) ref (with_item (error_frame id bs) halted);
            streams = delete id m.streams;
            loop = reading;
          })
      unfolding loop_turn push_to
      sent_turn =
          rw (found_halfway, push_to)
            (rw (Chan.send_room (error_frame id bs) halted.recv_ch r.open_channel (ground arith)))

      found_sent :
          get_elem? (set (set m.objects ref halted) ref (with_item (error_frame id bs) halted)) ref
          ≡ some (with_item (error_frame id bs) halted)
      found_sent = get_elem?-set_self _ ref _ (get_elem?-lt _ ref halted found_halfway)

      after_sent :
          (pick : Pick) (ctx : Ctx)
          → result_of (recv pick ctx ref (turn_by channel (turn_by channel m)))
            ≡ some (fail (text_bytes "stream error from peer" bs))
      unfolding read_out
      after_sent pick ctx = rw error_turn (
          rw sent_turn (
            recv_queued pick ctx ref _ (with_item (error_frame id bs) halted) (error_frame id bs) []
              found_sent (ap (λ l. l ++ error_frame id bs ∷ []) r.queued)))

      after_dropped :
          (ctx : Ctx)
          → result_of (recv stream_done ctx ref (turn_by stream_done (turn_by channel m)))
            ≡ some (fail eof)
      after_dropped ctx = rw error_turn (
          rw dropped (
            ap result_of
              (recv_cancelled ref _ halted found_halfway ctx r.queued r.open_channel refl)))

    close_turn :
        (r : Receiving id ref [] (frame_bytes (close_frame id) ++ []) m)
        → loop_turn channel m
          ≡ turned (record m {
            rwc = rest_input [] m.rwc;
            objects = set m.objects ref (record (r.stream) {
              recv_ch = record (r.stream.recv_ch) { closed = true };
              cancelled = true;
            });
            streams = delete id m.streams;
          })
    unfolding receive deliver
    close_turn r =
        rw
          (
            loop_turn-frame_bytes channel (close_frame id) [] m r.idle
                (record { short = omega arith; id_fits = fits; flags_fit = omega arith }) r.usable
                r.incoming,
            nat_beq_ne id 0 ne,
            r.known,
          )
          (rw (r.found, close_at) (rw (r.open_channel, close_stream) refl))

  -- An error frame arrives for an open stream with nothing queued. The loop has cancelled the stream
  -- before its select, so both cases are ready: if it sends the frame to the queue, the next `Recv`
  -- returns the peer's error; if it takes the other case, `Recv` returns `io.EOF` and the error is lost.
  pub recv-error_frame :
      (id ref : ℕ) (bs : List ℕ) (m : MessageConn V) (pick : Pick) (ctx : Ctx)
      → id < 2 ^ 32
      → id ≢ 0
      → length bs + 12 < 2 ^ 32
      → Receiving id ref [] (frame_bytes (error_frame id bs) ++ []) m
      → (result_of (recv pick ctx ref (turn_by channel (turn_by channel m)))
          ≡ some (fail (text_bytes "stream error from peer" bs)))
        × (result_of (recv stream_done ctx ref (turn_by stream_done (turn_by channel m)))
            ≡ some (fail eof))
  recv-error_frame id ref bs m pick ctx fits ne short r = (
    after_sent id ref m fits ne bs short r pick ctx,
    after_dropped id ref m fits ne bs short r ctx,
  )

  result-await_single :
      (pick : Pick) (ctx : Ctx) (t : Moment) (ref : ℕ) (m : MessageConn V)
      → recv_poll ref m ≡ returned (fail eof) m
      → result_of (await_single pick ctx t ref m) ≡ some (ok [])
  unfolding await_single recv single_response
  result-await_single pick ctx t ref m h = rw (h, result_of) refl

  -- The peer of a `CallMultiSingle` closes the stream without a response, as its goroutine does when the
  -- handler fails. The call then returns no bytes and no error.
  pub await_single-close_frame :
      (id ref : ℕ) (m : MessageConn V) (pick : Pick) (ctx : Ctx) (t : Moment)
      → id < 2 ^ 32
      → id ≢ 0
      → Receiving id ref [] (frame_bytes (close_frame id) ++ []) m
      → result_of (await_single pick ctx t ref (turn_by channel m)) ≡ some (ok [])
  await_single-close_frame id ref m pick ctx t fits ne r = rw (close_turn id ref m fits ne r) (
      result-await_single pick ctx t ref _ (
        poll_closed ref _ _
          (get_elem?-set_self m.objects ref _ (get_elem?-lt m.objects ref r.stream r.found))
          r.queued refl))
