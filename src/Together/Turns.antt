-- ===== src/Together/Turns.antt =====
-- What a turn of the read loop leaves of a side.
use plugo.Prelude.{
  ℕ, ◌≡◌, inl, inr, refl, sym, subst, ◌∙◌, true, List, none, All, Bool-cases, Option-cases,
  All-snoc, length, nat_eq, ltb,
}
use plugo.Io.{Failure}
use plugo.Chan
use plugo.Chan.{Chan, got, drained, empty, sent, blocks, crashes}
use plugo.Codec.{Codec}
use plugo.Conn.{Loop, reading, push_raw, push_accept, push_frame, stopped, MessageConn}
use plugo.Reader.{
  Pick, Turn, turned, parked, panicked, read_frame, dispatch, receive, handle_read_loop_error,
  loop_turn, close_all,
}
use plugo.System.Sending.{FitsWrite}
use plugo.System.Takes.{read_frame-Keeps}
use plugo.Together.Frames.{ReadsNext, read_frame-ReadsNext}
use plugo.Together.Ends.{Holds, Side}

reading_ne_stopped : reading ≡ stopped → ⊥
reading_ne_stopped e = cc

push_ne_stopped : {bs : List ℕ} → push_raw bs ≡ stopped → ⊥
push_ne_stopped e = cc

module _ {V : Type 0} (P : List ℕ → Type 0) (c : Codec V) (out : List ℕ) (m : MessageConn V) where
  -- What a turn leaves, which writes nothing.
  abbrev pub TurnedTo : Turn (MessageConn V) → Type 0
  TurnedTo (turned m') = Side P c out m' × (m'.rwc.output ≡ m.rwc.output)
  TurnedTo parked = Unit
  TurnedTo panicked = Unit

  module _ (s : Side P c out m) where
    stopped_TurnedTo :
        (m₁ : MessageConn V)
        → m₁.read_loop_started ≡ true
        → m₁.codec ≡ c
        → m₁.rwc.fault ≡ none
        → All P m₁.raw_msg_ch.items
        → m₁.rwc.output ≡ m.rwc.output
        → m₁.loop ≡ stopped
        → TurnedTo (turned m₁)
    stopped_TurnedTo m₁ a b f ps o l = (
      record {
        started = a;
        speaks = b;
        working = f;
        queued = ps;
        held = subst (Holds P) (sym l) tt;
        coming = inl l;
      },
      o,
    )

    handle_read_loop_error-TurnedTo :
        (e : Failure) (m₁ : MessageConn V)
        → m₁.read_loop_started ≡ true
        → m₁.codec ≡ c
        → m₁.rwc.fault ≡ none
        → All P m₁.raw_msg_ch.items
        → m₁.rwc.output ≡ m.rwc.output
        → TurnedTo (handle_read_loop_error e m₁)
    unfolding handle_read_loop_error
    handle_read_loop_error-TurnedTo e m₁ a b f ps o =
        elim (Option-cases (close_all m₁.streams m₁.objects)) [
          | inl h ↦ rw (h, handle_read_loop_error) tt
          | inr (os, h) ↦ elim (Bool-cases m₁.accept_ch.closed) [
            | inl x ↦ rw (h, handle_read_loop_error, x) tt
            | inr x ↦ elim (Bool-cases m₁.raw_msg_ch.closed) [
              | inl y ↦ rw (h, handle_read_loop_error, x, y) tt
              | inr y ↦ rw (h, handle_read_loop_error, x, y) (stopped_TurnedTo _ a b f ps o refl)
            ]
          ]
        ]

    -- The connection behind the read of a frame.
    abbrev behind : MessageConn V
    behind = record m { rwc = (read_frame m.rwc).1 }

    reading_TurnedTo : ReadsNext P out m.rwc → TurnedTo (dispatch (read_frame m.rwc).0 behind)
    unfolding dispatch receive
    reading_TurnedTo (inl (e, h)) =
        let (f, o) = read_frame-Keeps m.rwc in
        rw (h, dispatch)
          (handle_read_loop_error-TurnedTo e behind s.started s.speaks (f ∙ s.working) s.queued o)
    reading_TurnedTo (inr (bs, l, rest, p, ps, e, k)) =
        rw (e, dispatch)
          (
            record {
              started = s.started;
              speaks = s.speaks;
              working = s.working;
              queued = s.queued;
              held = p;
              coming = inr (l, ps, k);
            },
            refl,
          )

    next_of : m.loop ≡ reading → ((bs : List ℕ) → P bs → FitsWrite bs) → ReadsNext P out m.rwc
    next_of e fits = elim s.coming [
      | inl h ↦ absurd (reading_ne_stopped (sym e ∙ h))
      | inr (l, ps, h) ↦ read_frame-ReadsNext P out l m.rwc fits ps h
    ]

    pushed_TurnedTo :
        (bs : List ℕ)
        → P bs
        → m.loop ≡ push_raw bs
        → TurnedTo (elim (Chan.send bs m.raw_msg_ch) [
          | sent c ↦ turned (record m { raw_msg_ch = c; loop = reading })
          | blocks ↦ parked
          | crashes ↦ panicked
        ])
    pushed_TurnedTo bs p e = elim (Bool-cases m.raw_msg_ch.closed) [
      | inl h ↦ rw h tt
      | inr h ↦ elim (Bool-cases (ltb (length m.raw_msg_ch.items) m.raw_msg_ch.capacity)) [
        | inr k ↦ rw (h, k) tt
        | inl k ↦
            rw (h, k)
              (
                record {
                  started = s.started;
                  speaks = s.speaks;
                  working = s.working;
                  queued = All-snoc P m.raw_msg_ch.items bs s.queued p;
                  held = tt;
                  coming = elim s.coming [
                    | inl x ↦ absurd (push_ne_stopped (sym e ∙ x))
                    | inr x ↦ inr x
                  ];
                },
                refl,
              )
      ]
    ]

    loop_turn-at :
        (pick : Pick) (x : Loop)
        → ((bs : List ℕ) → P bs → FitsWrite bs)
        → m.loop ≡ x
        → Holds P x
        → TurnedTo (loop_turn pick m)
    unfolding loop_turn
    loop_turn-at pick reading fits e h = rw (e, loop_turn) (reading_TurnedTo (next_of e fits))
    loop_turn-at pick (push_raw bs) fits e h = rw (e, loop_turn) (pushed_TurnedTo bs h e)
    loop_turn-at pick (push_accept ref) fits e h = absurd h
    loop_turn-at pick (push_frame ref f) fits e h = absurd h
    loop_turn-at pick stopped fits e h = rw (e, loop_turn) tt

    pub loop_turn-TurnedTo :
        (pick : Pick) → ((bs : List ℕ) → P bs → FitsWrite bs) → TurnedTo (loop_turn pick m)
    loop_turn-TurnedTo pick fits = loop_turn-at pick m.loop fits refl s.held
