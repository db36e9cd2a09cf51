-- ===== src/Together/Writing.antt =====
-- What a write of a message leaves, whatever its context does.
use plugo.Prelude.{
  ℕ, ◌≡◌, ◌⊎◌, inl, inr, refl, ap, ◌∙◌, ◌++◌, List, Option, none, some, Bool-cases, Option-cases,
}
use plugo.Io.{
  Failure, Rwc, Result, ok, fail, panics, Deadline, never, at, refusal, write, close, Io, wrapping,
  set_deadline,
}
use plugo.Context.{
  Ctx, Moment, quiet, during, after, late, interrupt, set_from, clear_if_set, trailing, attended,
  conn_with_context,
}
use plugo.Wire.RoundTrip.{frame_bytes, frame_buffer_small}
use plugo.Conn.{MessageConn, write_data, write_message, write_buffer}
use plugo.Generic.{write_value}
use plugo.Runner.Serving.{message_frame}
use plugo.System.Sending.{FitsWrite}

-- A call that writes nothing, and one that may write these bytes.
abbrev pub Untouched : Rwc → Rwc → Type 0
Untouched r r' = (r'.input ≡ r.input) × (r'.fault ≡ r.fault) × (r'.output ≡ r.output)

abbrev pub Wrote : List ℕ → Rwc → Rwc → Type 0
Wrote bs r r' =
    (r'.input ≡ r.input)
    × (r'.fault ≡ r.fault)
    × ((r'.output ≡ r.output) ⊎ (r'.output ≡ r.output ++ bs))

later_Untouched : (r s t : Rwc) → Untouched r s → Untouched s t → Untouched r t
later_Untouched r s t (i, f, o) (j, g, p) = (j ∙ i, g ∙ f, p ∙ o)

later_Wrote : (bs : List ℕ) (r s t : Rwc) → Wrote bs r s → Untouched s t → Wrote bs r t
later_Wrote bs r s t (i, f, inl o) (j, g, p) = (j ∙ i, g ∙ f, inl (p ∙ o))
later_Wrote bs r s t (i, f, inr o) (j, g, p) = (j ∙ i, g ∙ f, inr (p ∙ o))

early_Wrote : (bs : List ℕ) (r s t : Rwc) → Untouched r s → Wrote bs s t → Wrote bs r t
early_Wrote bs r s t (i, f, o) (j, g, inl p) = (j ∙ i, g ∙ f, inl (p ∙ o))
early_Wrote bs r s t (i, f, o) (j, g, inr p) = (j ∙ i, g ∙ f, inr (p ∙ ap (λ x. x ++ bs) o))

set_deadline-Untouched : (d : Deadline) (r : Rwc) → Untouched r (set_deadline d r)
set_deadline-Untouched d r = elim (Bool-cases r.has_deadline) [
  | inl h ↦ rw h (refl, refl, refl)
  | inr h ↦ rw h (refl, refl, refl)
]

interrupt-Untouched : (r : Rwc) → Untouched r (interrupt r)
unfolding interrupt close
interrupt-Untouched r = elim (Bool-cases r.has_deadline) [
  | inl h ↦ rw (h, interrupt) (refl, refl, refl)
  | inr h ↦ elim (Bool-cases r.closed) [
    | inl k ↦ rw (h, interrupt) (rw (k, close) (refl, refl, refl))
    | inr k ↦ rw (h, interrupt) (rw (k, close) (refl, refl, refl))
  ]
]

set_from-Untouched : (d : Option ℕ) (r : Rwc) → Untouched r (set_from d r)
set_from-Untouched none r = (refl, refl, refl)
set_from-Untouched (some d) r = set_deadline-Untouched (at d) r

clear_if_set-Untouched : (d : Option ℕ) (r : Rwc) → Untouched r (clear_if_set d r)
clear_if_set-Untouched none r = (refl, refl, refl)
clear_if_set-Untouched (some d) r = set_deadline-Untouched never r

trailing-Untouched : (t : Moment) (r : Rwc) → Untouched r (trailing t r)
trailing-Untouched late r = interrupt-Untouched r
trailing-Untouched quiet r = (refl, refl, refl)
trailing-Untouched during r = (refl, refl, refl)
trailing-Untouched after r = (refl, refl, refl)

-- A write on a connection whose writes do not fail by themselves.
abbrev Writes : {A : Type 0} → List ℕ → Io A → Type 0
Writes bs io = (r : Rwc) → r.fault ≡ none → Wrote bs r (io r).1

wrapping_write-Writes : (w : Failure → Failure) (bs : List ℕ) → Writes bs (wrapping w (write bs))
unfolding write
wrapping_write-Writes w bs r h = elim (Option-cases (refusal r)) [
  | inl e ↦ rw (e, write) (rw (h, write) (refl, h, inr refl))
  | inr (x, e) ↦ rw (e, write) (refl, refl, inl refl)
]

attended-Writes :
    {A : Type 0} (t : Moment) (bs : List ℕ) (io : Io A) → Writes bs io → Writes bs (attended t io)
attended-Writes quiet bs io w r h = w r h
attended-Writes during bs io w r h =
    let u = interrupt-Untouched r in
    early_Wrote bs r (interrupt r) (io (interrupt r)).1 u (w (interrupt r) (u.1 ∙ h))
attended-Writes after bs io w r h =
    later_Wrote bs r (io r).1 (interrupt (io r).1) (w r h) (interrupt-Untouched (io r).1)
attended-Writes late bs io w r h = w r h

conn_with_context-Writes :
    {A : Type 0} (ctx : Ctx) (bs : List ℕ) (io : Io A)
    → Writes bs io
    → Writes bs (conn_with_context ctx io)
unfolding conn_with_context
conn_with_context-Writes ctx bs io w r h = elim (Option-cases ctx.err) [
  | inr (e, c) ↦ rw (c, conn_with_context) (refl, refl, inl refl)
  | inl c ↦
      let r₀ = set_from ctx.deadline r in
      let u = set_from-Untouched ctx.deadline r in
      elim (Bool-cases ctx.cancellable) [
        | inr d ↦
            rw (c, conn_with_context)
              (rw d (
                later_Wrote bs r (io r₀).1 (clear_if_set ctx.deadline (io r₀).1)
                  (early_Wrote bs r r₀ (io r₀).1 u (w r₀ (u.1 ∙ h)))
                  (clear_if_set-Untouched ctx.deadline (io r₀).1)))
        | inl d ↦
            let r₁ = (attended ctx.moment io r₀).1 in
            let r₂ = clear_if_set ctx.deadline r₁ in
            let r₃ = trailing ctx.moment r₂ in
            rw (c, conn_with_context)
              (rw d (
                later_Wrote bs r r₁ r₃
                  (early_Wrote bs r r₀ r₁ u (attended-Writes ctx.moment bs io w r₀ (u.1 ∙ h)))
                  (later_Untouched r₁ r₂ r₃ (clear_if_set-Untouched ctx.deadline r₁)
                    (trailing-Untouched ctx.moment r₂))))
      ]
]

module _ {V : Type 0} where
  -- A message of V is written whole, or nothing of it.
  abbrev pub Puts : List ℕ → MessageConn V → MessageConn V → Type 0
  Puts bs m m' = (r : Rwc) × (m' ≡ record m { rwc = r }) × Wrote bs m.rwc r

  write_data-Puts :
      (ctx : Ctx) (bs : List ℕ) (m : MessageConn V)
      → m.rwc.fault ≡ none
      → FitsWrite bs
      → Puts (frame_bytes (message_frame bs)) m (write_data ctx bs m).1
  unfolding write_data
  write_data-Puts ctx bs m h fits =
      rw (frame_buffer_small (message_frame bs) fits, write_buffer)
        (
          _,
          refl,
          conn_with_context-Writes ctx (frame_bytes (message_frame bs)) _
              (wrapping_write-Writes _ _) m.rwc h,
        )

  pub write_value-Puts :
      (ctx : Ctx) (v : V) (m : MessageConn V)
      → m.rwc.fault ≡ none
      → ((bs : List ℕ) → m.codec.marshal v ≡ ok bs → FitsWrite bs)
      → ((write_value ctx v m).1 ≡ m)
        ⊎ ((bs : List ℕ) × (m.codec.marshal v ≡ ok bs)
            × Puts (frame_bytes (message_frame bs)) m (write_value ctx v m).1)
  unfolding write_value write_message
  write_value-Puts ctx v m h fits = at_marshalled (m.codec.marshal v) refl
    where
      at_marshalled :
          (x : Result (List ℕ))
          → m.codec.marshal v ≡ x
          → ((write_value ctx v m).1 ≡ m)
            ⊎ ((bs : List ℕ) × (m.codec.marshal v ≡ ok bs)
                × Puts (frame_bytes (message_frame bs)) m (write_value ctx v m).1)
      at_marshalled (ok bs) e =
          inr (bs, e, rw (e, write_message) (write_data-Puts ctx bs m h (fits bs e)))
      at_marshalled (fail x) e = inl (rw (e, write_message) refl)
      at_marshalled panics e = inl (rw (e, write_message) refl)
