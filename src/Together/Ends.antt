-- ===== src/Together/Ends.antt =====
-- One side of a link on which only messages go: what is known of its connection, and that its reads and its
-- read loop keep it so.
use plugo.Prelude.{
  ℕ, ◌≡◌, ◌⊎◌, inl, inr, sym, ap, ◌∙◌, ◌++◌, true, List, [], ◌∷◌, none, All, append_assoc,
  append-nil, All-snoc, All-map,
}
use plugo.Io.{Rwc}
use plugo.Wire.RoundTrip.{frame_bytes}
use plugo.Codec.{Codec}
use plugo.Conn.{Stream, Loop, reading, push_raw, push_accept, push_frame, stopped, MessageConn}
use plugo.Runner.Serving.{message_frame}
use plugo.System.{arrival}
use plugo.Together.Frames.{frames}

-- What the read loop holds where it stands.
abbrev pub Holds : (List ℕ → Type 0) → Loop → Type 0
Holds P reading = Unit
Holds P (push_raw bs) = P bs
Holds P (push_accept ref) = ⊥
Holds P (push_frame ref f) = ⊥
Holds P stopped = Unit

-- What is still to be read: nothing any more, or the messages whose bytes have arrived or are on their way.
abbrev pub Coming : {V : Type 0} → (List ℕ → Type 0) → List ℕ → MessageConn V → Type 0
Coming P out m =
    (m.loop ≡ stopped) ⊎ ((l : List (List ℕ)) × All P l × (m.rwc.input ++ out ≡ frames l))

frames-append :
    (l : List (List ℕ)) (bs : List ℕ)
    → frames (l ++ bs ∷ []) ≡ frames l ++ frame_bytes (message_frame bs)
frames-append [] bs = append-nil _
frames-append (x ∷ l) bs =
    ap (λ y. frame_bytes (message_frame x) ++ y) (frames-append l bs)
    ∙ sym (append_assoc _ (frames l) _)

Holds-map :
    {P Q : List ℕ → Type 0} (x : Loop) → ((bs : List ℕ) → P bs → Q bs) → Holds P x → Holds Q x
Holds-map reading f h = tt
Holds-map (push_raw bs) f h = f bs h
Holds-map (push_accept ref) f h = h
Holds-map (push_frame ref g) f h = h
Holds-map stopped f h = tt

module _ {V : Type 0} where
  -- `out` is what the other side has written and the link has not yet brought; every message has P.
  pub record Side (P : List ℕ → Type 0) (c : Codec V) (out : List ℕ) (m : MessageConn V)
      : Type 0 where
    pub started : m.read_loop_started ≡ true
    pub speaks : m.codec ≡ c
    pub working : m.rwc.fault ≡ none
    pub queued : All P m.raw_msg_ch.items
    pub held : Holds P m.loop
    pub coming : Coming P out m

  module _ {P : List ℕ → Type 0} {c : Codec V} where
    pub Side-map :
        (Q : List ℕ → Type 0) (out : List ℕ) (m : MessageConn V)
        → ((bs : List ℕ) → P bs → Q bs)
        → Side P c out m
        → Side Q c out m
    Side-map Q out m f s = record {
      started = s.started;
      speaks = s.speaks;
      working = s.working;
      queued = All-map m.raw_msg_ch.items f s.queued;
      held = Holds-map m.loop f s.held;
      coming = elim s.coming [ inl h ↦ inl h | inr (l, p, e) ↦ inr (l, All-map l f p, e) ];
    }

    -- The other side writes a message.
    pub Side-written :
        (out bs : List ℕ) (m : MessageConn V)
        → P bs
        → Side P c out m
        → Side P c (out ++ frame_bytes (message_frame bs)) m
    Side-written out bs m p s = record {
      started = s.started;
      speaks = s.speaks;
      working = s.working;
      queued = s.queued;
      held = s.held;
      coming = elim s.coming [
        | inl h ↦ inl h
        | inr (l, ps, e) ↦ inr (
          l ++ bs ∷ [],
          All-snoc P l bs ps p,
          sym (append_assoc m.rwc.input out _)
              ∙ ap (λ x. x ++ frame_bytes (message_frame bs)) e
              ∙ sym (frames-append l bs),
        )
      ];
    }

    -- Bytes arrive.
    pub Side-arrival :
        (bs out : List ℕ) (m : MessageConn V) → Side P c (bs ++ out) m → Side P c out (arrival bs m)
    Side-arrival bs out m s = record {
      started = s.started;
      speaks = s.speaks;
      working = s.working;
      queued = s.queued;
      held = s.held;
      coming = elim s.coming [
        | inl h ↦ inl h
        | inr (l, ps, e) ↦ inr (l, ps, append_assoc m.rwc.input bs out ∙ e)
      ];
    }

    -- What a call does that reads nothing.
    pub Side-rwc :
        (out : List ℕ) (m : MessageConn V) (r : Rwc) (os : List Stream)
        → r.input ≡ m.rwc.input
        → r.fault ≡ m.rwc.fault
        → Side P c out m
        → Side P c out (record m { rwc = r; objects = os })
    Side-rwc out m r os i f s = record {
      started = s.started;
      speaks = s.speaks;
      working = f ∙ s.working;
      queued = s.queued;
      held = s.held;
      coming = elim s.coming [
        | inl h ↦ inl h
        | inr (l, ps, e) ↦ inr (l, ps, ap (λ x. x ++ out) i ∙ e)
      ];
    }
