-- ===== src/Together/Reads.antt =====
-- What a read of a message leaves of a side.
use plugo.Prelude.{
  ℕ, ◌≡◌, inl, inr, refl, sym, ap, ◌∙◌, arith, Bool, true, false, List, [], ◌∷◌, All, Bool-cases,
  Option-cases, if◌then◌else◌, nat_eq,
}
use plugo.Io.{Failure, Result, ok, fail, panics}
use plugo.Context.{Ctx, conn_with_context}
use plugo.Chan
use plugo.Chan.{Chan, got, drained, empty, sent, blocks, crashes}
use plugo.Codec.{Codec}
use plugo.Conn.{MessageConn, on_rwc}
use plugo.Reader.{
  Pick, channel, stream_done, ctx_done, Attempt, returned, waits, read_raw, read_data, read_message,
  decode, read_data_sync, or_eof,
}
use plugo.Generic.{read_value}
use plugo.Together.Ends.{Side}

module _ {V : Type 0} (P : List ℕ → Type 0) (c : Codec V) (out : List ℕ) (m : MessageConn V) where
  -- A message that is read is one with P.
  abbrev pub ReadFrom : Attempt V (MessageConn V) → Type 0
  ReadFrom (returned (ok v) m') =
      Side P c out m'
      × (m'.rwc.output ≡ m.rwc.output)
      × ((bs : List ℕ) × P bs × (c.unmarshal bs ≡ ok v))
  ReadFrom (returned (fail e) m') = Side P c out m' × (m'.rwc.output ≡ m.rwc.output)
  ReadFrom (returned panics m') = Side P c out m' × (m'.rwc.output ≡ m.rwc.output)
  ReadFrom waits = Unit

  module _ (s : Side P c out m) where
    dequeued : (ch : Chan (List ℕ)) → All P ch.items → Side P c out (record m { raw_msg_ch = ch })
    dequeued ch ps = record {
      started = s.started;
      speaks = s.speaks;
      working = s.working;
      queued = ps;
      held = s.held;
      coming = s.coming;
    }

    failed_ReadFrom : (e : Failure) → ReadFrom (returned (fail e) m)
    failed_ReadFrom e = (s, refl)

    decoded_ReadFrom :
        (bs : List ℕ) (m' : MessageConn V) (x : Result V)
        → P bs
        → Side P c out m'
        → m'.rwc.output ≡ m.rwc.output
        → m'.codec.unmarshal bs ≡ x
        → ReadFrom (returned (decode m' (ok bs)) m')
    decoded_ReadFrom bs m' (ok v) p t o e =
        rw (e, ReadFrom) (t, o, (bs, p, ap (λ k. k.unmarshal bs) (sym t.speaks) ∙ e))
    decoded_ReadFrom bs m' (fail x) p t o e = rw (e, ReadFrom) (t, o)
    decoded_ReadFrom bs m' panics p t o e = rw (e, ReadFrom) (t, o)

    -- What the select on `rawMsgCh` gives, decoded.
    abbrev decoded : Attempt (List ℕ) (MessageConn V) → Attempt V (MessageConn V)
    decoded (returned r m') = returned (decode m' r) m'
    decoded waits = waits

    received_ReadFrom :
        (l : List (List ℕ))
        → All P l
        → ReadFrom (
            decoded (elim (Chan.recv_from m.raw_msg_ch l) [
              | got bs c ↦ returned (ok bs) (record m { raw_msg_ch = c })
              | drained ↦ returned (fail (or_eof (λ e. e) m.read_loop_err)) m
              | empty ↦ waits
            ]))
    received_ReadFrom (bs ∷ l) (p, ps) =
        decoded_ReadFrom bs _ (m.codec.unmarshal bs) p
          (dequeued (record m.raw_msg_ch { items = l }) ps) refl refl
    received_ReadFrom [] ps = elim (Bool-cases m.raw_msg_ch.closed) [
      | inl h ↦ rw h (failed_ReadFrom (or_eof (λ e. e) m.read_loop_err))
      | inr h ↦ rw h tt
    ]

    read_raw-ReadFrom : (pick : Pick) (ctx : Ctx) → ReadFrom (decoded (read_raw pick ctx m))
    unfolding read_raw
    read_raw-ReadFrom ctx_done ctx = elim (Option-cases ctx.err) [
      | inl h ↦ rw h tt
      | inr (e, h) ↦ rw h (failed_ReadFrom e)
    ]
    read_raw-ReadFrom channel ctx = received_ReadFrom m.raw_msg_ch.items s.queued
    read_raw-ReadFrom stream_done ctx = received_ReadFrom m.raw_msg_ch.items s.queued

    decode_step :
        (x : Attempt (List ℕ) (MessageConn V))
        → ReadFrom (decoded x)
        → ReadFrom (elim x [ returned r m' ↦ returned (decode m' r) m' | waits ↦ waits ])
    decode_step (returned r m') h = h
    decode_step waits h = h

    started_ReadFrom :
        (b : Bool) (x y : Attempt (List ℕ) (MessageConn V))
        → b ≡ true
        → ReadFrom (decoded x)
        → ReadFrom (decoded (if b then x else y))
    started_ReadFrom true x y e h = h
    started_ReadFrom false x y e h = ground arith

    pub read_value-ReadFrom : (pick : Pick) (ctx : Ctx) → ReadFrom (read_value pick ctx m)
    unfolding read_value read_message read_data
    read_value-ReadFrom pick ctx =
        let (r, m') = on_rwc (conn_with_context ctx read_data_sync) m in
        let alone : Attempt (List ℕ) (MessageConn V) = returned r m' in
        decode_step (if m.read_loop_started then read_raw pick ctx m else alone) (
          started_ReadFrom m.read_loop_started (read_raw pick ctx m) alone s.started
            (read_raw-ReadFrom pick ctx))
