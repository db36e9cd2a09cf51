-- ===== src/Together/Linked.antt =====
-- Two connections at the ends of one link: what each step of one of them leaves of both.
use plugo.Prelude.{
  ℕ, ◌≡◌, inl, inr, refl, sym, subst, ◌++◌, List, [], ◌∷◌, take, drop, Bool-cases, ap, zero, suc,
}
use plugo.Io.{Rwc, close}
use plugo.Codec.{Codec}
use plugo.Conn.{MessageConn, close_conn}
use plugo.Reader.{Pick, Turn, turned, parked, panicked, loop_turn}
use plugo.System.{after_turn, arrival}
use plugo.System.Sending.{FitsWrite}
use plugo.Wire.RoundTrip.{frame_bytes}
use plugo.Runner.Serving.{message_frame}
use plugo.Together.{taken}
use plugo.Together.Writing.{Puts}
use plugo.Together.Ends.{Side, Side-written, Side-arrival, Side-rwc}
use plugo.Together.Turns.{TurnedTo, loop_turn-TurnedTo}

-- Messages with P are under way to the first one, messages with Q to the second one.
pub record Linked {V : Type 0} (P Q : List ℕ → Type 0) (c d : Codec V) (near far : MessageConn V)
    : Type 0 where
  pub near_side : Side P c far.rwc.output near
  pub far_side : Side Q d near.rwc.output far

take-drop : (n : ℕ) (xs : List ℕ) → take n xs ++ drop n xs ≡ xs
take-drop zero xs = refl
take-drop (suc n) [] = refl
take-drop (suc n) (x ∷ xs) = ap (λ l. x ∷ l) (take-drop n xs)

close_rwc :
    (r : Rwc)
    → ((close r).1.input ≡ r.input)
      × ((close r).1.fault ≡ r.fault)
      × ((close r).1.output ≡ r.output)
unfolding close
close_rwc r = elim (Bool-cases r.closed) [
  | inl h ↦ rw (h, close) (refl, refl, refl)
  | inr h ↦ rw (h, close) (refl, refl, refl)
]

module _ {V : Type 0} {P Q : List ℕ → Type 0} {c d : Codec V} where
  pub Linked-swap : (near far : MessageConn V) → Linked P Q c d near far → Linked Q P d c far near
  Linked-swap near far h = record { near_side = h.far_side; far_side = h.near_side }

  module _ (near far : MessageConn V) (h : Linked P Q c d near far) where
    -- The connection changes, and nothing is written.
    pub quiet-Linked :
        (m : MessageConn V)
        → Side P c far.rwc.output m × (m.rwc.output ≡ near.rwc.output)
        → Linked P Q c d m far
    quiet-Linked m (s, o) = record {
      near_side = s;
      far_side = subst (λ x. Side Q d x far) (sym o) h.far_side;
    }

    after_turn-Linked :
        (t : Turn (MessageConn V))
        → TurnedTo P c far.rwc.output near t
        → Linked P Q c d (after_turn t near) far
    after_turn-Linked (turned m) k = quiet-Linked m k
    after_turn-Linked parked k = h
    after_turn-Linked panicked k = h

    pub loop_turn-Linked :
        (pick : Pick)
        → ((bs : List ℕ) → P bs → FitsWrite bs)
        → Linked P Q c d (after_turn (loop_turn pick near) near) far
    loop_turn-Linked pick fits =
        after_turn-Linked (loop_turn pick near)
          (loop_turn-TurnedTo P c far.rwc.output near h.near_side pick fits)

    pub close_conn-Linked : Linked P Q c d (close_conn near).1 far
    unfolding close_conn
    close_conn-Linked =
        let (i, f, o) = close_rwc near.rwc in
        quiet-Linked (close_conn near).1
          (Side-rwc far.rwc.output near (close near.rwc).1 _ i f h.near_side, o)

    -- What a message with Q leaves that is written, or of which nothing is written.
    pub write-Linked :
        (bs : List ℕ) (m : MessageConn V)
        → Q bs
        → Puts (frame_bytes (message_frame bs)) near m
        → Linked P Q c d m far
    write-Linked bs m q (r, e, (i, f, o)) =
        subst (λ x. Linked P Q c d x far) (sym e)
          (record {
            near_side = Side-rwc far.rwc.output near r near.objects i f h.near_side;
            far_side = elim o [
              | inl same ↦ subst (λ x. Side Q d x far) (sym same) h.far_side
              | inr more ↦
                  subst (λ x. Side Q d x far) (sym more)
                    (Side-written near.rwc.output bs far q h.far_side)
            ];
          })

    -- The link brings bytes.
    pub arrival-Linked :
        (n : ℕ) → Linked P Q c d (taken n near) (arrival (take n near.rwc.output) far)
    arrival-Linked n = record {
      near_side =
          Side-rwc far.rwc.output near (record (near.rwc) { output = drop n near.rwc.output })
            near.objects refl refl h.near_side;
      far_side =
          Side-arrival (take n near.rwc.output) (drop n near.rwc.output) far
            (subst (λ x. Side Q d x far) (sym (take-drop n near.rwc.output)) h.far_side);
    }
