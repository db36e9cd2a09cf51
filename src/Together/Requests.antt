-- ===== src/Together/Requests.antt =====
-- The requests that have been written: each by one call, under the call's id, and once.
use plugo.Prelude.{
  ◌==◌, nat_beq_iff, Bool-cases, ℕ, ◌≡◌, ◌⊎◌, inl, inr, refl, subst, ◌∙◌, List, ◌∷◌, Option, none,
  some, get_elem?, lookup, Option-cases, nat_eq, get_elem?-set_self, get_elem?-lt, some_eq, ap,
}
use plugo.Io.{ok, fail, panics, Done}
use plugo.Context.{Ctx}
use plugo.Generic.{write_value}
use plugo.Shared.{RequestPayload, IpcReqMessage}
use plugo.IpcClient.{
  IpcClient, Payloads, PendingCall, Phase, stored, waiting, over, write_call, write_phase, end_call,
  after_write,
}
use plugo.IpcClient.Acts
use plugo.IpcClient.Acts.{ClientAct}
use plugo.Together.{
  HostAct, client_act, begins, writes, awaits, reads, closes, turns, ask, ask_phase,
}
use plugo.Together.Calls.{after_write-Grows, HasWritten, Later, Grows, perform-Grows}

-- A call that has written this request.
abbrev pub WrittenBy : IpcReqMessage → Option PendingCall → Type 0
WrittenBy q none = ⊥
WrittenBy q (some call) = (call.id ≡ q.id) × HasWritten call.phase

abbrev pub Written : List (ℕ × IpcReqMessage) → List PendingCall → Type 0
Written asked calls =
    (ref : ℕ) (q : IpcReqMessage) → lookup ref asked ≡ some q → WrittenBy q (get_elem? calls ref)

-- No entry is lost or changed.
abbrev pub Extends : List (ℕ × IpcReqMessage) → List (ℕ × IpcReqMessage) → Type 0
Extends l l' = (ref : ℕ) (q : IpcReqMessage) → lookup ref l ≡ some q → lookup ref l' ≡ some q

WrittenBy-Later :
    (q : IpcReqMessage) (x y : Option PendingCall)
    → WrittenBy q x
    → ((call : PendingCall) → x ≡ some call → Later call y)
    → WrittenBy q y
WrittenBy-Later q none y w g = absurd w
WrittenBy-Later q (some call) none w g = g call refl
WrittenBy-Later q (some call) (some call') (i, h) g = let (j, k) = g call refl in (j ∙ i, k h)

Written-Grows :
    (asked : List (ℕ × IpcReqMessage)) (calls calls' : List PendingCall)
    → Grows calls calls'
    → Written asked calls
    → Written asked calls'
Written-Grows asked calls calls' g w ref q e =
    WrittenBy-Later q (get_elem? calls ref) (get_elem? calls' ref) (w ref q e)
      (λ call d. g ref call d)

cons_cases :
    (ref : ℕ) (q : IpcReqMessage) (asked : List (ℕ × IpcReqMessage)) (ref' : ℕ) (q' : IpcReqMessage)
    → lookup ref' ((ref, q) ∷ asked) ≡ some q'
    → ((ref ≡ ref') × (q ≡ q')) ⊎ (lookup ref' asked ≡ some q')
cons_cases ref q asked ref' q' e = elim (Bool-cases (ref == ref')) [
  | inl h ↦ inl ((nat_beq_iff ref ref').0 h, some_eq (rw h at e))
  | inr h ↦ inr (rw h at e)
]

cons-Extends :
    (ref : ℕ) (q : IpcReqMessage) (asked : List (ℕ × IpcReqMessage))
    → ((q' : IpcReqMessage) → lookup ref asked ≡ some q' → ⊥)
    → Extends asked ((ref, q) ∷ asked)
cons-Extends ref q asked new ref' q' e = elim (Bool-cases (ref == ref')) [
  | inl h ↦ absurd (new q' (ap (λ i. lookup i asked) ((nat_beq_iff ref ref').0 h) ∙ e))
  | inr h ↦ rw h e
]

-- The entries before and behind an act: they are kept, and each is still by its call.
abbrev pub Asks : List (ℕ × IpcReqMessage) → List (ℕ × IpcReqMessage) → List PendingCall → Type 0
Asks asked asked' calls' = Extends asked asked' × Written asked' calls'

module _ {V : Type 0} (payloads : Payloads V) where
  after_write-WrittenBy :
      (ref : ℕ) (call : PendingCall) (r : Done) (c : IpcClient V) (q : IpcReqMessage)
      → get_elem? c.calls ref ≡ some call
      → call.id ≡ q.id
      → WrittenBy q (get_elem? (after_write ref call r c).calls ref)
  unfolding end_call
  after_write-WrittenBy ref call (ok x) c q e i =
      rw
        (get_elem?-set_self c.calls ref (record call { phase = waiting })
          (get_elem?-lt c.calls ref call e))
        (i, tt)
  after_write-WrittenBy ref call (fail x) c q e i =
      rw
        (get_elem?-set_self c.calls ref (record call { phase = over _ })
          (get_elem?-lt c.calls ref call e))
        (i, tt)
  after_write-WrittenBy ref call panics c q e i =
      rw
        (get_elem?-set_self c.calls ref (record call { phase = over panics })
          (get_elem?-lt c.calls ref call e))
        (i, tt)

  unwritten :
      (asked : List (ℕ × IpcReqMessage)) (calls : List PendingCall) (ref : ℕ) (call : PendingCall)
      → Written asked calls
      → get_elem? calls ref ≡ some call
      → call.phase ≡ stored
      → (q : IpcReqMessage) → lookup ref asked ≡ some q
      → ⊥
  unwritten asked calls ref call w e d q h =
      subst HasWritten d (subst (WrittenBy q) e (w ref q h)).1

  write_phase-Asks :
      (x : Phase) (ctx : Ctx) (cmd : List ℕ) (payload : RequestPayload) (ref : ℕ)
      (call : PendingCall) (asked : List (ℕ × IpcReqMessage)) (c : IpcClient V)
      → get_elem? c.calls ref ≡ some call
      → call.phase ≡ x
      → Written asked c.calls
      → Asks asked
          (ask_phase x cmd payload ref call asked)
          (write_phase payloads x ctx cmd payload ref call c).calls
  write_phase-Asks stored ctx cmd payload ref call asked c e d w =
      let req : IpcReqMessage = record { id = call.id; command = cmd; payload = payload } in
      let (r, m) = write_value ctx (payloads.request req) c.conn in
      let c' : IpcClient V = record c { conn = m } in
      let kept = Written-Grows asked c.calls _ (after_write-Grows ref call r c' e) w in
      (
        cons-Extends ref req asked (unwritten asked c.calls ref call w e d),
        λ ref' q h. elim (cons_cases ref req asked ref' q h) [
          | inl (i, j) ↦
              subst (λ k. WrittenBy q (get_elem? (after_write ref call r c').calls k)) i
                (after_write-WrittenBy ref call r c' q e (ap (λ y. y.id) j))
          | inr old ↦ kept ref' q old
        ],
      )
  write_phase-Asks waiting ctx cmd payload ref call asked c e d w = (λ ref' q h. h, w)
  write_phase-Asks (over r) ctx cmd payload ref call asked c e d w = (λ ref' q h. h, w)

  write_call-Asks :
      (ctx : Ctx) (cmd : List ℕ) (payload : RequestPayload) (ref : ℕ)
      (asked : List (ℕ × IpcReqMessage)) (c : IpcClient V)
      → Written asked c.calls
      → Asks asked
          (ask (writes ctx cmd payload ref) c asked)
          (write_call payloads ctx cmd payload ref c).calls
  unfolding ask write_call
  write_call-Asks ctx cmd payload ref asked c w = elim (Option-cases (get_elem? c.calls ref)) [
    | inl e ↦ rw (ask, write_call, e) (λ ref' q h. h, w)
    | inr (call, e) ↦
        rw (ask, write_call, e)
          (write_phase-Asks call.phase ctx cmd payload ref call asked c e refl w)
  ]

  same_Asks :
      (a : HostAct) (asked : List (ℕ × IpcReqMessage)) (c : IpcClient V)
      → Written asked c.calls
      → Asks asked asked (Acts.perform payloads (client_act a) c).calls
  same_Asks a asked c w =
      (λ ref q h. h, Written-Grows asked c.calls _ (perform-Grows payloads (client_act a) c) w)

  pub perform-Asks :
      (a : HostAct) (asked : List (ℕ × IpcReqMessage)) (c : IpcClient V)
      → Written asked c.calls
      → Asks asked (ask a c asked) (Acts.perform payloads (client_act a) c).calls
  unfolding ask Acts.perform
  perform-Asks begins asked c w = same_Asks begins asked c w
  perform-Asks (writes ctx cmd payload ref) asked c w =
      write_call-Asks ctx cmd payload ref asked c w
  perform-Asks (awaits case ctx ref) asked c w = same_Asks (awaits case ctx ref) asked c w
  perform-Asks (reads pick t) asked c w = same_Asks (reads pick t) asked c w
  perform-Asks closes asked c w = same_Asks closes asked c w
  perform-Asks (turns pick) asked c w = same_Asks (turns pick) asked c w
