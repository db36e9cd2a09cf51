-- ===== src/System/Takes.antt =====
-- What the read of a frame takes off a connection, and that it writes nothing, and a write takes nothing.
use plugo.Prelude.{
  ℕ, zero, suc, ◌+◌, ◌≤◌, ◌≡◌, inl, inr, refl, ◌∙◌, arith, List, [], ◌∷◌, length, drop, nat_eq,
  bytes_eq, ◌==◌, ltb, Bool-cases, Option-cases,
}
use plugo.Io.{Failure, Rwc, Result, ok, fail, panics, Io, bind, wrap_io, refusal, read_full, write}
use plugo.Context.{background, conn_with_context}
use plugo.Wire.{uint32}
use plugo.Conn.{write_buffer}
use plugo.Reader.{read_frame, read_payload}

-- A read that succeeds takes this many bytes.
abbrev pub Takes : {A : Type 0} → ℕ → Result A × Rwc → Rwc → Type 0
Takes n (ok a, r') r = length r'.input + n ≤ length r.input
Takes n (fail e, r') r = Unit
Takes n (panics, r') r = Unit

later_Takes :
    {B : Type 0} (n : ℕ) (r r' : Rwc) (y : Result B × Rwc)
    → length r'.input + n ≤ length r.input
    → Takes 0 y r'
    → Takes n y r
later_Takes n r r' (ok b, r'') h i = omega (arith, h, i)
later_Takes n r r' (fail e, r'') h i = tt
later_Takes n r r' (panics, r'') h i = tt

bind-Takes :
    {A B : Type 0} (n : ℕ) (x : Result A × Rwc) (f : A → Io B) (r : Rwc)
    → Takes n x r
    → ((a : A) (r' : Rwc) → Takes 0 (f a r') r')
    → Takes n (bind x f) r
bind-Takes n (ok a, r') f r h k = later_Takes n r r' (f a r') h (k a r')
bind-Takes n (fail e, r') f r h k = tt
bind-Takes n (panics, r') f r h k = tt

length-drop : (n : ℕ) (xs : List ℕ) → n ≤ length xs → length (drop n xs) + n ≤ length xs
length-drop zero xs h = omega arith
length-drop (suc n) [] h = absurd (omega (arith, h))
length-drop (suc n) (x ∷ xs) h = omega (arith, length-drop n xs (omega (arith, h)))

read_full-Takes : (n : ℕ) (r : Rwc) → Takes n (read_full n r) r
unfolding read_full
read_full-Takes n r = elim (Option-cases (refusal r)) [
  | inr (e, h) ↦ rw (h, read_full, Takes) tt
  | inl h ↦ elim (Bool-cases (ltb (length r.input) n)) [
    | inl k ↦ rw (h, read_full) (rw k tt)
    | inr k ↦ rw (h, read_full) (rw k (length-drop n r.input (ground arith)))
  ]
]

fewer_Takes : {A : Type 0} (n : ℕ) (x : Result A × Rwc) (r : Rwc) → Takes n x r → Takes 0 x r
fewer_Takes n (ok a, r') r h = omega (arith, h)
fewer_Takes n (fail e, r') r h = tt
fewer_Takes n (panics, r') r h = tt

wrap-Takes :
    {A : Type 0} (n : ℕ) (w : Failure → Failure) (x : Result A × Rwc) (r : Rwc)
    → Takes n x r
    → Takes n (wrap_io w x) r
wrap-Takes n w (ok a, r') r h = h
wrap-Takes n w (fail e, r') r h = tt
wrap-Takes n w (panics, r') r h = tt

read_payload-Takes : (w : Failure → Failure) (n : ℕ) (r : Rwc) → Takes 0 (read_payload w n r) r
read_payload-Takes w n r = elim (Bool-cases (n == 0)) [
  | inl h ↦ rw h (omega arith)
  | inr h ↦
      rw h
        (wrap-Takes 0 w (read_full n r) r (fewer_Takes n (read_full n r) r (read_full-Takes n r)))
]

pub read_frame-Takes : (r : Rwc) → Takes 12 (read_frame r) r
unfolding read_frame
read_frame-Takes r = bind-Takes 12 (read_full 12 r) _ r (read_full-Takes 12 r) (λ header r'.
    bind-Takes 0 (read_payload _ (uint32 header) r') _ r' (read_payload-Takes _ (uint32 header) r')
      (λ bs r''. omega arith))

write-input : (bs : List ℕ) (r : Rwc) → (write bs r).1.input ≡ r.input
unfolding write
write-input bs r = elim (Option-cases (refusal r)) [
  | inr (e, h) ↦ rw (h, write) refl
  | inl h ↦ elim (Option-cases r.fault) [
    | inl k ↦ rw (h, write) (rw k refl)
    | inr (x, k) ↦ rw (h, write) (rw k refl)
  ]
]

wrap-input :
    {A : Type 0} (w : Failure → Failure) (x : Result A × Rwc) → (wrap_io w x).1.input ≡ x.1.input
wrap-input w (ok a, r) = refl
wrap-input w (fail e, r) = refl
wrap-input w (panics, r) = refl

pub write_buffer-input :
    (w : Failure → Failure) (x : Result (List ℕ)) (r : Rwc)
    → (write_buffer background w x r).1.input ≡ r.input
unfolding conn_with_context
write_buffer-input w (ok buf) r = wrap-input w (write buf r) ∙ write-input buf r
write_buffer-input w (fail e) r = refl
write_buffer-input w panics r = refl

-- A read of a frame writes nothing.
abbrev pub Keeps : {A : Type 0} → Result A × Rwc → Rwc → Type 0
Keeps x r = (x.1.fault ≡ r.fault) × (x.1.output ≡ r.output)

bind-Keeps :
    {A B : Type 0} (x : Result A × Rwc) (f : A → Io B) (r : Rwc)
    → Keeps x r
    → ((a : A) (r' : Rwc) → Keeps (f a r') r')
    → Keeps (bind x f) r
bind-Keeps (ok a, r') f r (h, i) k = let (j, l) = k a r' in (j ∙ h, l ∙ i)
bind-Keeps (fail e, r') f r h k = h
bind-Keeps (panics, r') f r h k = h

wrap-Keeps :
    {A : Type 0} (w : Failure → Failure) (x : Result A × Rwc) (r : Rwc)
    → Keeps x r
    → Keeps (wrap_io w x) r
wrap-Keeps w (ok a, r') r h = h
wrap-Keeps w (fail e, r') r h = h
wrap-Keeps w (panics, r') r h = h

read_full-Keeps : (n : ℕ) (r : Rwc) → Keeps (read_full n r) r
unfolding read_full
read_full-Keeps n r = elim (Option-cases (refusal r)) [
  | inr (e, h) ↦ rw (h, read_full) (refl, refl)
  | inl h ↦ elim (Bool-cases (ltb (length r.input) n)) [
    | inl k ↦ rw (h, read_full) (rw k (refl, refl))
    | inr k ↦ rw (h, read_full) (rw k (refl, refl))
  ]
]

read_payload-Keeps : (w : Failure → Failure) (n : ℕ) (r : Rwc) → Keeps (read_payload w n r) r
read_payload-Keeps w n r = elim (Bool-cases (n == 0)) [
  | inl h ↦ rw h (refl, refl)
  | inr h ↦ rw h (wrap-Keeps w (read_full n r) r (read_full-Keeps n r))
]

pub read_frame-Keeps : (r : Rwc) → Keeps (read_frame r) r
unfolding read_frame
read_frame-Keeps r = bind-Keeps (read_full 12 r) _ r (read_full-Keeps 12 r) (λ header r'.
    bind-Keeps (read_payload _ (uint32 header) r') _ r' (read_payload-Keeps _ (uint32 header) r')
      (λ bs r''. (refl, refl)))
