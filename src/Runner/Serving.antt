-- ===== src/Runner/Serving.antt =====
-- The loop over plain messages: each request gets one response, in order.
use plugo.Prelude.{
  ℕ, zero, suc, ◌≡◌, refl, sym, ap, ◌∙◌, ◌++◌, true, List, [], ◌∷◌, length, append_assoc,
  append-nil, All,
}
use plugo.Io.{ok}
use plugo.Context.{background, conn_with_context}
use plugo.Wire.{StreamFrame}
use plugo.Wire.RoundTrip.{frame_bytes, frame_buffer_small}
use plugo.Chan.{recv_from}
use plugo.Codec.{Codec}
use plugo.Conn.{MessageConn, write_data, write_buffer, write_message}
use plugo.Reader.{channel, returned, read_raw, read_data, read_message}
use plugo.Generic.{read_value, write_value}
use plugo.System.Writes.{IsHealthy, put_output, with_rwc, write_healthy}
use plugo.System.Sending.{FitsWrite}
use plugo.Runner.{
  PluginConfig, Values, Round, goes_on, idle, leaves, crashes, response_to, serve_round, answer_to,
  after_answer,
}

-- A plain message's frame, and those of several in a row.
abbrev pub message_frame : List ℕ → StreamFrame
message_frame bs = record { stream_id = 0; flags = 0; payload = bs }

module _ {V : Type 0} where
  pub write_message-frame :
      (v : V) (bs : List ℕ) (m : MessageConn V)
      → IsHealthy m.rwc
      → m.codec.marshal v ≡ ok bs
      → FitsWrite bs
      → write_message background v m
        ≡ (ok tt, with_rwc (put_output (frame_bytes (message_frame bs)) m.rwc) m)
  unfolding write_message write_data conn_with_context
  write_message-frame v bs m h e fits =
      rw (write_message, e)
        (rw (frame_buffer_small (message_frame bs) fits, write_buffer)
          (rw (write_healthy (frame_bytes (message_frame bs)) m.rwc h)))

-- A request and its response, as values and as bytes.
pub record Exchange (V : Type 0) : Type 0 where
  pub raw : List ℕ
  pub request : V
  pub reply : List ℕ

abbrev pub raws : {V : Type 0} → List (Exchange V) → List (List ℕ)
raws [] = []
raws (x ∷ l) = x.raw ∷ raws l

abbrev pub reply_bytes : {V : Type 0} → List (Exchange V) → List ℕ
reply_bytes [] = []
reply_bytes (x ∷ l) = frame_bytes (message_frame x.reply) ++ reply_bytes l

module _ {V : Type 0} (values : Values V) (cfg : PluginConfig) where
  -- The codec reads the request, and writes a response with its id, its command and the plugin's payload.
  pub record IsAnswered (c : Codec V) (x : Exchange V) : Type 0 where
    pub reads : c.unmarshal x.raw ≡ ok x.request
    pub writes :
        c.marshal (
          values.outgoing (record {
            id = (values.message x.request).id;
            command = (values.message x.request).command;
            payload = (response_to cfg (values.message x.request)).payload;
          }))
        ≡ ok x.reply
    pub fits : FitsWrite x.reply

  unfoldable pub serve_rounds : ℕ → MessageConn V → Round (MessageConn V)
  serve_rounds zero m = goes_on m
  serve_rounds (suc n) m = elim (serve_round values cfg channel m) [
    | goes_on m' ↦ serve_rounds n m'
    | idle ↦ idle
    | leaves m' ↦ leaves m'
    | crashes ↦ crashes
  ]

  abbrev with_raw : List (List ℕ) → MessageConn V → MessageConn V
  with_raw later m = record m { raw_msg_ch = record raw_msg_ch { items = later } }
    where
      open m use {raw_msg_ch}

  read_value-raw :
      (x : Exchange V) (later : List (List ℕ)) (m : MessageConn V)
      → m.read_loop_started ≡ true
      → IsAnswered m.codec x
      → m.raw_msg_ch.items ≡ x.raw ∷ later
      → read_value channel background m ≡ returned (ok x.request) (with_raw later m)
  unfolding read_value read_message read_data read_raw
  read_value-raw x later m on a e = rw (on, read_data) (rw (e, recv_from) (rw a.reads refl))

  -- The connection behind a round.
  abbrev served : List ℕ → List (List ℕ) → MessageConn V → MessageConn V
  served bs later m = record m {
    rwc = put_output (frame_bytes (message_frame bs)) m.rwc;
    raw_msg_ch = record raw_msg_ch { items = later };
  }
    where
      open m use {raw_msg_ch}

  serve_round-served :
      (x : Exchange V) (later : List (List ℕ)) (m : MessageConn V)
      → m.read_loop_started ≡ true
      → IsHealthy m.rwc
      → IsAnswered m.codec x
      → m.raw_msg_ch.items ≡ x.raw ∷ later
      → serve_round values cfg channel m ≡ goes_on (served x.reply later m)
  unfolding serve_round read_value read_message read_data read_raw write_value write_message
      write_data conn_with_context
  serve_round-served x later m on h a e =
      let m₁ = with_raw later m in
      let read = read_value-raw x later m on a e in
      let wrote =
        write_message-frame _ x.reply m₁ (record { usable = h.usable; writable = h.writable })
          a.writes a.fits in
      ap (answer_to values cfg) read ∙ ap (after_answer values cfg) wrote

  -- If the read loop has queued requests that the codec reads, on a working connection, then that many
  -- rounds of the message loop write one frame for each, with the response that has the request's id
  -- and command, in the order of the requests; the loop goes on, and what was queued behind them is
  -- still there.
  pub serve_rounds-reply_bytes :
      (l : List (Exchange V)) (later : List (List ℕ)) (m : MessageConn V)
      → m.read_loop_started ≡ true
      → IsHealthy m.rwc
      → All (IsAnswered m.codec) l
      → m.raw_msg_ch.items ≡ raws l ++ later
      → (m' : MessageConn V) × (serve_rounds (length l) m ≡ goes_on m')
        × (m'.rwc.output ≡ m.rwc.output ++ reply_bytes l)
        × (m'.raw_msg_ch.items ≡ later)
  unfolding serve_rounds
  serve_rounds-reply_bytes [] later m on h a e = (m, refl, sym (append-nil m.rwc.output), e)
  serve_rounds-reply_bytes (x ∷ l) later m on h (a, rest) e =
      let m₁ = served x.reply (raws l ++ later) m in
      let (m', runs, written, left) =
        serve_rounds-reply_bytes l later m₁ on (record { usable = h.usable; writable = h.writable })
          rest refl in
      (
        m',
        rw (serve_rounds, serve_round-served x (raws l ++ later) m on h a e) runs,
        written ∙ append_assoc m.rwc.output _ _,
        left,
      )
