-- ===== src/Together/Calls.antt =====
-- What becomes of the client's calls: none is lost or renumbered, and none writes its request twice.
use plugo.Prelude.{
  Bool-cases, ℕ, ◌≡◌, inl, inr, refl, sym, subst, ◌∙◌, ◌++◌, Bool, true, false, List, [], ◌∷◌,
  Option, none, some, get_elem?, set, lookup, Option-cases, nat_eq, nat_eq_or_ne,
  get_elem?-set_self, get_elem?-set_ne, get_elem?-lt, get_elem?-append_lt, some_eq, if◌then◌else◌,
  ap,
}
use plugo.Io.{Result, ok, fail, panics, Done, Failure}
use plugo.Chan
use plugo.Chan.{Chan, got, drained, empty, sent, blocks, crashes}
use plugo.Context.{Ctx}
use plugo.Conn.{MessageConn}
use plugo.Reader.{Attempt, returned, waits}
use plugo.Shared.{RequestPayload, ResponsePayload, IpcRespMessage}
use plugo.IpcClient.{
  IpcClient, Payloads, PendingCall, Phase, stored, waiting, over, Case, result, caller_done,
  plugin_done, timed_out, begin_call, write_call, write_phase, await_call, await_phase, select_case,
  take_result, read_round, after_read, dispatch_response, push_payload, push_sent, read_failed,
  end_call, after_write, close_client, is_eof,
}
use plugo.IpcClient.Acts
use plugo.IpcClient.Acts.{ClientAct}

-- The call has left `Store` behind.
abbrev pub HasWritten : Phase → Type 0
HasWritten stored = ⊥
HasWritten x = Unit

-- The same call at a later time.
abbrev pub Later : PendingCall → Option PendingCall → Type 0
Later call none = ⊥
Later call (some x) = (x.id ≡ call.id) × (HasWritten call.phase → HasWritten x.phase)

-- Each call is still there.
abbrev pub Grows : List PendingCall → List PendingCall → Type 0
Grows calls calls' =
    (ref : ℕ) (call : PendingCall)
    → get_elem? calls ref ≡ some call
    → Later call (get_elem? calls' ref)

Grows-refl : (calls : List PendingCall) → Grows calls calls
Grows-refl calls ref call e = rw e (refl, λ w. w)

Grows-set :
    (calls : List PendingCall) (ref : ℕ) (call call' : PendingCall)
    → get_elem? calls ref ≡ some call
    → Later call (some call')
    → Grows calls (set calls ref call')
Grows-set calls ref call call' e h i x g = elim (nat_eq_or_ne ref i) [
  | inl q ↦
      (let same : x ≡ call = some_eq (sym g ∙ ap (get_elem? calls) (sym q) ∙ e) in
        subst (λ j. Later x (get_elem? (set calls ref call') j)) q
          (rw (get_elem?-set_self calls ref call' (get_elem?-lt calls ref call e))
            (subst (λ y. Later y (some call')) (sym same) h)))
  | inr q ↦ rw (get_elem?-set_ne calls ref i call' q, g) (refl, λ w. w)
]

Grows-snoc : (calls : List PendingCall) (call : PendingCall) → Grows calls (calls ++ call ∷ [])
Grows-snoc calls call ref x g =
    rw (get_elem?-append_lt calls (call ∷ []) ref (get_elem?-lt calls ref x g), g) (refl, λ w. w)

module _ {V : Type 0} where
  end_call-Grows :
      (ref : ℕ) (call call' : PendingCall) (r : Result ResponsePayload) (c : IpcClient V)
      → get_elem? c.calls ref ≡ some call
      → call'.id ≡ call.id
      → Grows c.calls (end_call ref call' r c).calls
  unfolding end_call
  end_call-Grows ref call call' r c e i = Grows-set c.calls ref call _ e (i, λ w. tt)

  pub after_write-Grows :
      (ref : ℕ) (call : PendingCall) (r : Done) (c : IpcClient V)
      → get_elem? c.calls ref ≡ some call
      → Grows c.calls (after_write ref call r c).calls
  after_write-Grows ref call (ok x) c e = Grows-set c.calls ref call _ e (refl, λ w. tt)
  after_write-Grows ref call (fail x) c e = end_call-Grows ref call call _ c e refl
  after_write-Grows ref call panics c e = end_call-Grows ref call call _ c e refl

  write_phase-Grows :
      (payloads : Payloads V) (x : Phase) (ctx : Ctx) (cmd : List ℕ) (payload : RequestPayload)
      (ref : ℕ) (call : PendingCall) (c : IpcClient V)
      → get_elem? c.calls ref ≡ some call
      → Grows c.calls (write_phase payloads x ctx cmd payload ref call c).calls
  write_phase-Grows payloads stored ctx cmd payload ref call c e =
      after_write-Grows ref call _ (record c { conn = _ }) e
  write_phase-Grows payloads waiting ctx cmd payload ref call c e = Grows-refl c.calls
  write_phase-Grows payloads (over r) ctx cmd payload ref call c e = Grows-refl c.calls

  write_call-Grows :
      (payloads : Payloads V) (ctx : Ctx) (cmd : List ℕ) (payload : RequestPayload) (ref : ℕ)
      (c : IpcClient V)
      → Grows c.calls (write_call payloads ctx cmd payload ref c).calls
  unfolding write_call
  write_call-Grows payloads ctx cmd payload ref c = elim (Option-cases (get_elem? c.calls ref)) [
    | inl e ↦ rw (write_call, e) (Grows-refl c.calls)
    | inr (call, e) ↦
        rw (write_call, e) (write_phase-Grows payloads call.phase ctx cmd payload ref call c e)
  ]

  take_result-Grows :
      (ref : ℕ) (call : PendingCall) (l : List ResponsePayload) (c : IpcClient V)
      → get_elem? c.calls ref ≡ some call
      → Grows c.calls (take_result ref call c (Chan.recv_from call.ch l)).calls
  take_result-Grows ref call (p ∷ l) c e = end_call-Grows ref call _ _ c e refl
  take_result-Grows ref call [] c e = elim (Bool-cases call.ch.closed) [
    | inl h ↦ rw h (Grows-refl c.calls)
    | inr h ↦ rw h (Grows-refl c.calls)
  ]

  select_case-Grows :
      (case : Case) (ctx : Ctx) (ref : ℕ) (call : PendingCall) (c : IpcClient V)
      → get_elem? c.calls ref ≡ some call
      → Grows c.calls (select_case case ctx ref call c).calls
  unfolding end_call
  select_case-Grows result ctx ref call c e = take_result-Grows ref call call.ch.items c e
  select_case-Grows caller_done ctx ref call c e = elim (Option-cases ctx.err) [
    | inl h ↦ rw h (Grows-refl c.calls)
    | inr (x, h) ↦ rw h (end_call-Grows ref call call _ c e refl)
  ]
  select_case-Grows plugin_done ctx ref call c e = elim (Bool-cases c.cancelled) [
    | inl h ↦ rw h (end_call-Grows ref call call _ c e refl)
    | inr h ↦ rw h (Grows-refl c.calls)
  ]
  select_case-Grows timed_out ctx ref call c e = end_call-Grows ref call call _ c e refl

  await_phase-Grows :
      (x : Phase) (case : Case) (ctx : Ctx) (ref : ℕ) (call : PendingCall) (c : IpcClient V)
      → get_elem? c.calls ref ≡ some call
      → Grows c.calls (await_phase x case ctx ref call c).calls
  await_phase-Grows waiting case ctx ref call c e = select_case-Grows case ctx ref call c e
  await_phase-Grows stored case ctx ref call c e = Grows-refl c.calls
  await_phase-Grows (over r) case ctx ref call c e = Grows-refl c.calls

  await_call-Grows :
      (case : Case) (ctx : Ctx) (ref : ℕ) (c : IpcClient V)
      → Grows c.calls (await_call case ctx ref c).calls
  unfolding await_call
  await_call-Grows case ctx ref c = elim (Option-cases (get_elem? c.calls ref)) [
    | inl e ↦ rw (await_call, e) (Grows-refl c.calls)
    | inr (call, e) ↦ rw (await_call, e) (await_phase-Grows call.phase case ctx ref call c e)
  ]

  push_payload-Grows :
      (ref : ℕ) (p : ResponsePayload) (c : IpcClient V) → Grows c.calls (push_payload ref p c).calls
  push_payload-Grows ref p c = elim (Option-cases (get_elem? c.calls ref)) [
    | inl e ↦ rw (push_payload, e) (Grows-refl c.calls)
    | inr (call, e) ↦ rw (push_payload, e) (push_sent-Grows ref call (Chan.send p call.ch) c e)
  ]
    where
      push_sent-Grows :
          (ref : ℕ) (call : PendingCall) (x : Chan.Sent ResponsePayload) (c : IpcClient V)
          → get_elem? c.calls ref ≡ some call
          → Grows c.calls (push_sent ref call c x).calls
      push_sent-Grows ref call (sent ch) c e = Grows-set c.calls ref call _ e (refl, λ w. w)
      push_sent-Grows ref call blocks c e = Grows-refl c.calls
      push_sent-Grows ref call crashes c e = Grows-refl c.calls

  dispatch_response-Grows :
      (r : IpcRespMessage) (c : IpcClient V) → Grows c.calls (dispatch_response r c).calls
  unfolding dispatch_response
  dispatch_response-Grows r c = elim (Option-cases (lookup r.id c.callbacks)) [
    | inl e ↦ rw (dispatch_response, e) (Grows-refl c.calls)
    | inr (ref, e) ↦ rw (dispatch_response, e) (push_payload-Grows ref r.payload c)
  ]

  read_failed-Grows : (e : Failure) (c : IpcClient V) → Grows c.calls (read_failed e c).calls
  unfolding read_failed
  read_failed-Grows e c = elim (Bool-cases (is_eof e)) [
    | inl h ↦ rw h (Grows-refl c.calls)
    | inr h ↦ elim (Bool-cases c.cancelled) [
      | inl k ↦ rw (h, k) (Grows-refl c.calls)
      | inr k ↦ rw (h, k) (Grows-refl c.calls)
    ]
  ]

  module _ (payloads : Payloads V) where
    after_read-Grows :
        (c : IpcClient V) (a : Attempt V (MessageConn V))
        → Grows c.calls (after_read payloads c a).calls
    after_read-Grows c (returned (ok v) m) = dispatch_response-Grows _ (record c { conn = m })
    after_read-Grows c (returned (fail e) m) = read_failed-Grows e (record c { conn = m })
    after_read-Grows c (returned panics m) = Grows-refl c.calls
    after_read-Grows c waits = Grows-refl c.calls

    read_if-Grows :
        (b : Bool) (c : IpcClient V) (a : Attempt V (MessageConn V))
        → Grows c.calls (if b then after_read payloads c a else c).calls
    read_if-Grows true c a = after_read-Grows c a
    read_if-Grows false c a = Grows-refl c.calls

    -- No act loses a call, changes its id or takes it back before its write.
    pub perform-Grows :
        (a : ClientAct) (c : IpcClient V) → Grows c.calls (Acts.perform payloads a c).calls
    unfolding Acts.perform begin_call read_round close_client
    perform-Grows ClientAct.begins c = Grows-snoc c.calls _
    perform-Grows (ClientAct.writes ctx cmd payload ref) c =
        write_call-Grows payloads ctx cmd payload ref c
    perform-Grows (ClientAct.awaits case ctx ref) c = await_call-Grows case ctx ref c
    perform-Grows (ClientAct.reads pick t) c = read_if-Grows c.reading c _
    perform-Grows ClientAct.closes c = Grows-refl c.calls
    perform-Grows (ClientAct.uses_conn a) c = Grows-refl c.calls
