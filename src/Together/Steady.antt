-- ===== src/Together/Steady.antt =====
-- A connection on a working link, between two messages: what it takes to write one, to bring it over, to
-- queue it and to read it.
use plugo.Prelude.{
  ℕ, ◌≡◌, refl, sym, ap, subst, ◌∙◌, ◌++◌, arith, true, false, List, [], ◌∷◌, length, take, drop,
  take_all, drop-length-append, append-nil,
}
use plugo.Io.{Rwc, ok}
use plugo.Codec.{Codec}
use plugo.Context.{Ctx, background}
use plugo.Chan
use plugo.Chan.{Chan, recv_from}
use plugo.Conn.{MessageConn, reading, push_raw}
use plugo.Reader.{channel, turned, returned, loop_turn, receive, read_raw, read_data, read_message}
use plugo.Generic.{read_value, write_value}
use plugo.System.{after_turn, arrival}
use plugo.System.Sending.{FitsWrite}
use plugo.System.Writes.{IsHealthy, put_output, rest_input, with_rwc, loop_turn-frame_bytes}
use plugo.Wire.RoundTrip.{frame_bytes}
use plugo.Runner.Serving.{message_frame, write_message-frame}
use plugo.Together.{taken}

-- The loop is at the head of its round; `incoming` is to come, `queue` is queued for `ReadData`, and
-- `outgoing` is written and not yet taken by the link.
pub record Steady {V : Type 0} (c : Codec V) (incoming : List ℕ) (queue : List (List ℕ))
    (outgoing : List ℕ) (m : MessageConn V) : Type 0 where
  pub started : m.read_loop_started ≡ true
  pub speaks : m.codec ≡ c
  pub healthy : IsHealthy m.rwc
  pub at_head : m.loop ≡ reading
  pub alive : m.raw_msg_ch.closed ≡ false
  pub wide : m.raw_msg_ch.capacity ≡ 100
  pub to_come : m.rwc.input ≡ incoming
  pub queued : m.raw_msg_ch.items ≡ queue
  pub written : m.rwc.output ≡ outgoing

abbrev pub message_bytes : List ℕ → List ℕ
message_bytes bs = frame_bytes (message_frame bs)

abbrev pub with_raw : {V : Type 0} → List (List ℕ) → MessageConn V → MessageConn V
with_raw later m = record m { raw_msg_ch = record raw_msg_ch { items = later } }
  where
    open m use {raw_msg_ch}

abbrev pub turn_once : {V : Type 0} → MessageConn V → MessageConn V
turn_once m = after_turn (loop_turn channel m) m

-- A message that the loop holds, and one that it has queued.
abbrev holding : {V : Type 0} → List ℕ → MessageConn V → MessageConn V
holding bs m = record m { rwc = rest_input [] m.rwc; loop = push_raw bs }

abbrev queueing : {V : Type 0} → List ℕ → MessageConn V → MessageConn V
queueing bs m = record m {
  rwc = rest_input [] m.rwc;
  raw_msg_ch = record (m.raw_msg_ch) { items = m.raw_msg_ch.items ++ bs ∷ [] };
  loop = reading;
}

module _ {V : Type 0} {c : Codec V} where
  -- Only the connection below changes.
  rwc-Steady :
      (i i' : List ℕ) (q : List (List ℕ)) (o o' : List ℕ) (m : MessageConn V) (r : Rwc)
      → IsHealthy r
      → r.input ≡ i'
      → r.output ≡ o'
      → Steady c i q o m
      → Steady c i' q o' (with_rwc r m)
  rwc-Steady i i' q o o' m r h a b s = record {
    started = s.started;
    speaks = s.speaks;
    healthy = h;
    at_head = s.at_head;
    alive = s.alive;
    wide = s.wide;
    to_come = a;
    queued = s.queued;
    written = b;
  }

  pub write_value-Steady :
      (i : List ℕ) (q : List (List ℕ)) (o : List ℕ) (m : MessageConn V) (v : V) (bs : List ℕ)
      → c.marshal v ≡ ok bs
      → FitsWrite bs
      → Steady c i q o m
      → (write_value background v m ≡ (ok tt, with_rwc (put_output (message_bytes bs) m.rwc) m))
        × Steady c i q (o ++ message_bytes bs) (with_rwc (put_output (message_bytes bs) m.rwc) m)
  unfolding write_value
  write_value-Steady i q o m v bs e fits s = (
    write_message-frame v bs m s.healthy (ap (λ x. x.marshal v) s.speaks ∙ e) fits,
    rwc-Steady i i q o (o ++ message_bytes bs) m (put_output (message_bytes bs) m.rwc)
        (record { usable = s.healthy.usable; writable = s.healthy.writable }) s.to_come
        (ap (λ x. x ++ message_bytes bs) s.written) s,
  )

  -- The link takes all that is written, and brings it to a side for which nothing else is on its way.
  pub taken-Steady :
      (n : ℕ) (i : List ℕ) (q : List (List ℕ)) (o : List ℕ) (m : MessageConn V)
      → length o ≡ n
      → Steady c i q o m
      → (take n m.rwc.output ≡ o) × Steady c i q [] (taken n m)
  taken-Steady n i q o m e s =
      let all : take n o ≡ o = take_all n o (omega (arith, e)) in
      let rest : drop n o ≡ [] =
        ap (λ k. drop k o) (sym e)
        ∙ ap (drop (length o)) (sym (append-nil o))
        ∙ drop-length-append o [] in
      (
        ap (take n) s.written ∙ all,
        rwc-Steady i i q o [] m (record (m.rwc) { output = drop n m.rwc.output })
            (record { usable = s.healthy.usable; writable = s.healthy.writable }) s.to_come
            (ap (drop n) s.written ∙ rest) s,
      )

  pub arrival-Steady :
      (bs : List ℕ) (q : List (List ℕ)) (o : List ℕ) (m : MessageConn V) (x : List ℕ)
      → x ≡ bs
      → Steady c [] q o m
      → Steady c bs q o (arrival x m)
  arrival-Steady bs q o m x e s =
      rwc-Steady [] bs q o o m (record (m.rwc) { input = m.rwc.input ++ x })
        (record { usable = s.healthy.usable; writable = s.healthy.writable })
        (ap (λ y. y ++ x) s.to_come ∙ e) s.written s

  reads_message :
      (bs : List ℕ) (o : List ℕ) (m : MessageConn V)
      → FitsWrite bs
      → Steady c (message_bytes bs) [] o m
      → loop_turn channel m ≡ turned (holding bs m)
  unfolding receive
  reads_message bs o m fits s =
      loop_turn-frame_bytes channel (message_frame bs) [] m s.at_head
        (record { short = fits; id_fits = omega arith; flags_fit = omega arith }) s.healthy.usable
        (s.to_come ∙ sym (append-nil (message_bytes bs)))

  queues_message :
      (i : List ℕ) (bs : List ℕ) (o : List ℕ) (m : MessageConn V)
      → Steady c i [] o m
      → loop_turn channel (holding bs m) ≡ turned (queueing bs m)
  unfolding loop_turn
  queues_message i bs o m s =
      rw
        (
          loop_turn,
          Chan.send_room bs m.raw_msg_ch s.alive (omega (arith, ap length s.queued, s.wide)),
        )
        refl

  -- Two acts of the read loop queue the message.
  pub turns-Steady :
      (bs : List ℕ) (o : List ℕ) (m : MessageConn V)
      → FitsWrite bs
      → Steady c (message_bytes bs) [] o m
      → Steady c [] (bs ∷ []) o (turn_once (turn_once m))
  turns-Steady bs o m fits s =
      let first = reads_message bs o m fits s in
      let second = queues_message (message_bytes bs) bs o m s in
      subst (λ t. Steady c [] (bs ∷ []) o (turn_once (after_turn t m))) (sym first)
        (subst (λ t. Steady c [] (bs ∷ []) o (after_turn t (holding bs m))) (sym second)
          (record {
            started = s.started;
            speaks = s.speaks;
            healthy = record { usable = s.healthy.usable; writable = s.healthy.writable };
            at_head = refl;
            alive = s.alive;
            wide = s.wide;
            to_come = refl;
            queued = ap (λ x. x ++ bs ∷ []) s.queued;
            written = s.written;
          }))

  pub read_value-Steady :
      (ctx : Ctx) (i : List ℕ) (o : List ℕ) (m : MessageConn V) (bs : List ℕ) (v : V)
      → c.unmarshal bs ≡ ok v
      → Steady c i (bs ∷ []) o m
      → (read_value channel ctx m ≡ returned (ok v) (with_raw [] m))
        × Steady c i [] o (with_raw [] m)
  unfolding read_value read_message read_data read_raw
  read_value-Steady ctx i o m bs v u s = (
    rw (s.started, read_data)
        (rw (s.queued, recv_from) (rw (ap (λ x. x.unmarshal bs) s.speaks ∙ u) refl)),
    record {
      started = s.started;
      speaks = s.speaks;
      healthy = s.healthy;
      at_head = s.at_head;
      alive = s.alive;
      wide = s.wide;
      to_come = s.to_come;
      queued = refl;
      written = s.written;
    },
  )
