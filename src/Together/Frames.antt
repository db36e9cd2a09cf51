-- ===== src/Together/Frames.antt =====
-- What the read loop makes of a run of message frames, of which not all bytes may have arrived.
use plugo.Prelude.{
  ℕ, ◌≤◌, ◌<◌, ◌^◌, ◌≡◌, ◌⊎◌, inl, inr, refl, sym, ap, subst, ◌∙◌, ◌++◌, arith, List, [], ◌∷◌, some,
  length, All, Option-cases, append_assoc, nat_eq, suc_beq_zero, length-append,
}
use plugo.Io.{
  panics, Failure, Rwc, Result, ok, fail, refusal, read_full, wrapped, wrap_io, short_read, Io,
  bind,
}
use plugo.Wire.RoundTrip.{
  frame_bytes, IsReadable, header, read_header, header_fields, read_frame-frame_bytes,
  length-header,
}
use plugo.Reader.{read_frame}
use plugo.Runner.Serving.{message_frame}
use plugo.System.Sending.{FitsWrite}
use plugo.System.Writes.{rest_input}

-- The bytes of messages in a row.
abbrev pub frames : List (List ℕ) → List ℕ
frames [] = []
frames (bs ∷ l) = frame_bytes (message_frame bs) ++ frames l

abbrev head_or : ℕ → List ℕ → ℕ
head_or d [] = d
head_or d (x ∷ xs) = x

abbrev tail : List ℕ → List ℕ
tail [] = []
tail (x ∷ xs) = xs

-- Where one prefix of a list is the shorter one, it is a prefix of the other.
append_split :
    (p q a b : List ℕ)
    → a ++ b ≡ p ++ q
    → length p ≤ length a
    → (rest : List ℕ) × (a ≡ p ++ rest) × (rest ++ b ≡ q)
append_split [] q a b e h = (a, refl, e)
append_split (x ∷ p) q [] b e h = absurd (omega (arith, h))
append_split (x ∷ p) q (y ∷ a) b e h =
    let (rest, i, j) = append_split p q a b (ap tail e) (omega (arith, h)) in
    let same : y ≡ x = ap (head_or 0) e in
    (rest, subst (λ z. y ∷ a ≡ z ∷ (p ++ rest)) same (ap (λ l. y ∷ l) i), j)

read_full-short :
    (n : ℕ) (r : Rwc)
    → IsReadable r
    → length r.input < n
    → (e : Failure) × ((read_full n r).0 ≡ fail e)
unfolding read_full
read_full-short n r h s = (short_read r.input r.ended, ground arith)

le_or_lt : (n k : ℕ) → (n ≤ k) ⊎ (k < n)
le_or_lt n k = ground arith

bound : (f : List ℕ) → FitsWrite f → length f < 2 ^ 32
bound f h = omega (arith, h)

bind_failed :
    {A B : Type 0} (x : Result A × Rwc) (f : A → Io B) (e : Failure)
    → x.0 ≡ fail e
    → (bind x f).0 ≡ fail e
bind_failed (ok a, r) f e h = ground arith
bind_failed (fail d, r) f e h = ground arith
bind_failed (panics, r) f e h = ground arith

wrap_failed :
    {A : Type 0} (w : Failure → Failure) (x : Result A × Rwc) (e : Failure)
    → x.0 ≡ fail e
    → (wrap_io w x).0 ≡ fail (w e)
wrap_failed w (ok a, r) e h = ground arith
wrap_failed w (fail d, r) e h = ground arith
wrap_failed w (panics, r) e h = ground arith

-- A frame whose header has arrived, but not its payload.
read_frame-cut :
    (bs rest : List ℕ) (r : Rwc)
    → IsReadable r
    → FitsWrite bs
    → r.input ≡ header (length bs) 0 0 ++ rest
    → length rest < length bs
    → (e : Failure) × ((read_frame r).0 ≡ fail e)
unfolding read_frame
read_frame-cut [] rest r h fits i s = absurd (omega (arith, s))
read_frame-cut (b ∷ bs) rest r h fits i s =
    let (len, id, flags) =
      header_fields (length (b ∷ bs)) 0 0 (bound (b ∷ bs) fits) (omega arith) (omega arith) in
    let (e, short) = read_full-short (length (b ∷ bs)) (rest_input rest r) h s in
    (
      wrapped "failed to read stream frame payload" e,
      rw (read_header (length (b ∷ bs)) 0 0 rest r h i, read_frame, len, suc_beq_zero (length bs))
          (bind_failed (wrap_io _ (read_full (length (b ∷ bs)) (rest_input rest r))) _ _
            (wrap_failed _ _ e short)),
    )

-- The next thing that a read of a frame gives: an error, or the first message, where it has arrived.
abbrev pub ReadsNext : (List ℕ → Type 0) → List ℕ → Rwc → Type 0
ReadsNext P out r =
    ((e : Failure) × ((read_frame r).0 ≡ fail e))
    ⊎ ((bs : List ℕ) × (l : List (List ℕ)) × (rest : List ℕ) × P bs
        × All P l
        × (read_frame r ≡ (ok (message_frame bs), rest_input rest r))
        × (rest ++ out ≡ frames l))

prefix_ReadsNext :
    (P : List ℕ → Type 0) (out bs rest : List ℕ) (l : List (List ℕ)) (r : Rwc)
    → IsReadable r
    → FitsWrite bs
    → P bs
    → All P l
    → r.input ≡ header (length bs) 0 0 ++ rest
    → rest ++ out ≡ bs ++ frames l
    → ReadsNext P out r
prefix_ReadsNext P out bs rest l r h fits p ps i e = elim (le_or_lt (length bs) (length rest)) [
  | inr s ↦ inl (read_frame-cut bs rest r h fits i s)
  | inl s ↦
      let (later, j, k) = append_split bs (frames l) rest out e s in
      let whole : r.input ≡ frame_bytes (message_frame bs) ++ later =
        i ∙ ap (λ x. header (length bs) 0 0 ++ x) j ∙ sym (append_assoc _ bs later) in
      inr (
        bs,
        l,
        later,
        p,
        ps,
        read_frame-frame_bytes (message_frame bs) later r
            (record { short = fits; id_fits = omega arith; flags_fit = omega arith }) h whole,
        k,
      )
]

read_frame-failed :
    (r : Rwc)
    → (e : Failure) × ((read_full 12 r).0 ≡ fail e)
    → (e : Failure) × ((read_frame r).0 ≡ fail e)
unfolding read_frame
read_frame-failed r (e, h) = (e, bind_failed (read_full 12 r) _ e h)

read_full-refused :
    (n : ℕ) (r : Rwc) (e : Failure) → refusal r ≡ some e → (read_full n r).0 ≡ fail e
unfolding read_full
read_full-refused n r e h = rw (h, read_full) refl

begun_ReadsNext :
    (P : List ℕ → Type 0) (out : List ℕ) (l : List (List ℕ)) (r : Rwc)
    → ((bs : List ℕ) → P bs → FitsWrite bs)
    → All P l
    → IsReadable r
    → 12 ≤ length r.input
    → r.input ++ out ≡ frames l
    → ReadsNext P out r
begun_ReadsNext P out [] r fits ps h s e =
    absurd (omega (arith, s, length-append r.input out, ap length e))
begun_ReadsNext P out (bs ∷ l) r fits (p, ps) h s e =
    let (rest, i, j) =
      append_split (header (length bs) 0 0) (bs ++ frames l) r.input out
        (e ∙ append_assoc (header (length bs) 0 0) bs (frames l))
        (omega (arith, s, length-header (length bs) 0 0)) in
    prefix_ReadsNext P out bs rest l r h (fits bs p) p ps i j

-- Whatever part of the messages has arrived, and in whatever state the connection is.
pub read_frame-ReadsNext :
    (P : List ℕ → Type 0) (out : List ℕ) (l : List (List ℕ)) (r : Rwc)
    → ((bs : List ℕ) → P bs → FitsWrite bs)
    → All P l
    → r.input ++ out ≡ frames l
    → ReadsNext P out r
read_frame-ReadsNext P out l r fits ps e = elim (Option-cases (refusal r)) [
  | inr (x, h) ↦ inl (read_frame-failed r (x, read_full-refused 12 r x h))
  | inl h ↦ elim (le_or_lt 12 (length r.input)) [
    | inr s ↦ inl (read_frame-failed r (read_full-short 12 r h s))
    | inl s ↦ begun_ReadsNext P out l r fits ps h s e
  ]
]
