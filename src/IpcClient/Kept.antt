-- ===== src/IpcClient/Kept.antt =====
-- The invariant of the client: whose the callbacks are, and what has been heard for each call.
use plugo.Prelude.{
  suc, ◌^◌, ◌+◌, arith, false, length-set, length-append, none_ne_some, some_eq, nat_eq_or_ne,
  All-set, All-snoc, ℕ, ◌≡◌, ◌≢◌, ◌⊎◌, inl, inr, sym, ◌∙◌, subst, ◌++◌, List, [], ◌∷◌, Option, none,
  some, length, get_elem?, set, lookup, insert, delete, nat_eq, lookup-insert_self,
  lookup-insert_ne, lookup-delete_self, lookup-delete_ne, Option-cases, All, get_elem?-set_self,
  get_elem?-set_ne, get_elem?-append_lt, get_elem?-append_length, get_elem?-lt, ◌<◌, ap,
}
use plugo.Io.{ok, fail, panics}
use plugo.Chan.{Chan}
use plugo.Wire.{u32}
use plugo.Shared.{ResponsePayload, IpcRespMessage}
use plugo.IpcClient.{PendingCall, Phase, stored, waiting, over}

-- A response with this id and this payload has been read.
abbrev pub Heard : List IpcRespMessage → ℕ → ResponsePayload → Type 0
Heard [] k p = ⊥
Heard (r ∷ seen) k p = ((r.id ≡ k) × (r.payload ≡ p)) ⊎ Heard seen k p

abbrev pub PhaseHeard : List IpcRespMessage → ℕ → Phase → Type 0
PhaseHeard seen k (over (ok p)) = Heard seen k p
PhaseHeard seen k x = Unit

abbrev pub IsOpen : Phase → Type 0
IsOpen (over r) = ⊥
IsOpen x = Unit

-- What `make(chan …, 1)` gives, and nobody closes.
abbrev pub IsCallChan : Chan ResponsePayload → Type 0
IsCallChan ch = (ch.capacity ≡ 1) × (ch.closed ≡ false)

abbrev pub CallHeard : List IpcRespMessage → PendingCall → Type 0
CallHeard seen call =
    All (Heard seen call.id) call.ch.items × PhaseHeard seen call.id call.phase × IsCallChan call.ch

-- A callback belongs to an open call with its id.
abbrev pub Owned : ℕ → Option PendingCall → Type 0
Owned k none = ⊥
Owned k (some call) = (call.id ≡ k) × IsOpen call.phase

-- Whose the callbacks are, what has been heard for each call, and how the calls are numbered: before
-- the counter wraps, each open call has its callback.
pub record Kept (seen : List IpcRespMessage) (n : ℕ) (callbacks : List (ℕ × ℕ))
    (calls : List PendingCall) : Type 0 where
  pub owned : (k ref : ℕ) → lookup k callbacks ≡ some ref → Owned k (get_elem? calls ref)
  pub heard : All (CallHeard seen) calls
  pub counted : n ≡ u32 (length calls)
  pub numbered :
      (i : ℕ) (call : PendingCall) → get_elem? calls i ≡ some call → call.id ≡ u32 (suc i)
  pub registered :
      length calls < 2 ^ 32
      → (i : ℕ) (call : PendingCall) → get_elem? calls i ≡ some call
      → IsOpen call.phase
      → lookup call.id callbacks ≡ some i

Owned-lt :
    (k : ℕ) (calls : List PendingCall) (ref : ℕ)
    → Owned k (get_elem? calls ref)
    → ref < length calls
Owned-lt k calls ref h = elim (Option-cases (get_elem? calls ref)) [
  | inl e ↦ absurd (subst (Owned k) e h)
  | inr (call, e) ↦ get_elem?-lt calls ref call e
]

lt_ne : {i j : ℕ} → i < j → i ≢ j
lt_ne h e = omega (arith, h, e)

pub u32-suc_eq : (i j : ℕ) → suc i < 2 ^ 32 → suc j < 2 ^ 32 → u32 (suc i) ≡ u32 (suc j) → i ≡ j
u32-suc_eq i j a b e = omega (arith, a, b, e)

module _ {seen : List IpcRespMessage} {n : ℕ} {callbacks : List (ℕ × ℕ)} {calls : List PendingCall}
    (h : Kept seen n callbacks calls) where
  open h use {owned, heard, counted, numbered, registered}

  at_set :
      (ref : ℕ) (call call' : PendingCall)
      → get_elem? calls ref ≡ some call
      → get_elem? (set calls ref call') ref ≡ some call'
  at_set ref call call' e = get_elem?-set_self calls ref call' (get_elem?-lt calls ref call e)

  -- What stands at an index behind a `set`: the new call, or the one from before.
  set_cases :
      (P : ℕ → PendingCall → Type 0) (ref : ℕ) (call call' : PendingCall)
      → get_elem? calls ref ≡ some call
      → P ref call'
      → ((i : ℕ) (x : PendingCall) → ref ≢ i → get_elem? calls i ≡ some x → P i x)
      → (i : ℕ) (x : PendingCall) → get_elem? (set calls ref call') i ≡ some x
      → P i x
  set_cases P ref call call' e new old i x g = elim (nat_eq_or_ne ref i) [
    | inl q ↦
        subst (λ j. P j x) q
          (subst (P ref)
            (some_eq (
              sym (at_set ref call call' e)
              ∙ subst (λ j. get_elem? (set calls ref call') j ≡ some x) (sym q) g))
            new)
    | inr q ↦ old i x q (sym (get_elem?-set_ne calls ref i call' q) ∙ g)
  ]

  snoc_cases :
      (P : ℕ → PendingCall → Type 0) (call : PendingCall)
      → P (length calls) call
      → ((i : ℕ) (x : PendingCall) → i < length calls → get_elem? calls i ≡ some x → P i x)
      → (i : ℕ) (x : PendingCall) → get_elem? (calls ++ call ∷ []) i ≡ some x
      → P i x
  snoc_cases P call new old i x g = elim (nat_eq_or_ne (length calls) i) [
    | inl q ↦
        subst (λ j. P j x) q
          (subst (P (length calls))
            (some_eq (
              sym (get_elem?-append_length calls call [])
              ∙ subst (λ j. get_elem? (calls ++ call ∷ []) j ≡ some x) (sym q) g))
            new)
    | inr q ↦
        let early : i < length calls =
          omega
            (arith, q, get_elem?-lt (calls ++ call ∷ []) i x g, length-append calls (call ∷ [])) in
        old i x early (sym (get_elem?-append_lt calls (call ∷ []) i early) ∙ g)
  ]

  -- A call is put in the place of itself: the id stays, and so does that it is open.
  pub set-Kept :
      (ref : ℕ) (call call' : PendingCall)
      → get_elem? calls ref ≡ some call
      → call'.id ≡ call.id
      → IsOpen call.phase
      → IsOpen call'.phase
      → CallHeard seen call'
      → Kept seen n callbacks (set calls ref call')
  set-Kept ref call call' e same before alive p = record {
    owned = λ k j l. elim (nat_eq_or_ne ref j) [
      | inl q ↦
          subst (λ i. Owned k (get_elem? (set calls ref call') i)) q
            (subst (Owned k) (sym (at_set ref call call' e))
              (same ∙ (subst (Owned k) (ap (get_elem? calls) (sym q) ∙ e) (owned k j l)).0, alive))
      | inr q ↦ subst (Owned k) (sym (get_elem?-set_ne calls ref j call' q)) (owned k j l)
    ];
    heard = All-set (CallHeard seen) calls ref call' heard p;
    counted = counted ∙ ap u32 (sym (length-set calls ref call'));
    numbered =
        set_cases (λ i x. x.id ≡ u32 (suc i)) ref call call' e (same ∙ numbered ref call e)
          (λ i x d g. numbered i x g);
    registered = λ b.
        let b' : length calls < 2 ^ 32 = subst (λ m. m < 2 ^ 32) (length-set calls ref call') b in
        set_cases (λ i x. IsOpen x.phase → lookup x.id callbacks ≡ some i) ref call call' e
          (λ o. ap (λ k. lookup k callbacks) same ∙ registered b' ref call e before)
          (λ i x d g. registered b' i x g);
  }

  distinct :
      length calls < 2 ^ 32
      → (i j : ℕ) (x y : PendingCall) → get_elem? calls i ≡ some x
      → get_elem? calls j ≡ some y
      → i ≢ j
      → x.id ≢ y.id
  distinct b i j x y g d q same = q (
      u32-suc_eq i j (omega (arith, b, get_elem?-lt calls i x g))
        (omega (arith, b, get_elem?-lt calls j y d)) (sym (numbered i x g) ∙ same ∙ numbered j y d))

  -- A call is over, and its id is no longer a key.
  pub delete-Kept :
      (ref : ℕ) (call call' : PendingCall)
      → get_elem? calls ref ≡ some call
      → call'.id ≡ call.id
      → (IsOpen call'.phase → ⊥)
      → CallHeard seen call'
      → Kept seen n (delete call.id callbacks) (set calls ref call')
  delete-Kept ref call call' e same shut p = record {
    owned = λ k j l. elim (nat_eq_or_ne call.id k) [
      | inl q ↦ absurd (
          none_ne_some (
            sym (lookup-delete_self k callbacks)
            ∙ subst (λ i. lookup k (delete i callbacks) ≡ some j) q l))
      | inr q ↦
          (let old = owned k j (sym (lookup-delete_ne call.id k callbacks q) ∙ l) in
            let other : ref ≢ j =
              λ r. q (subst (Owned k) (ap (get_elem? calls) (sym r) ∙ e) old).0 in
            subst (Owned k) (sym (get_elem?-set_ne calls ref j call' other)) old)
    ];
    heard = All-set (CallHeard seen) calls ref call' heard p;
    counted = counted ∙ ap u32 (sym (length-set calls ref call'));
    numbered =
        set_cases (λ i x. x.id ≡ u32 (suc i)) ref call call' e (same ∙ numbered ref call e)
          (λ i x d g. numbered i x g);
    registered = λ b.
        let b' : length calls < 2 ^ 32 = subst (λ m. m < 2 ^ 32) (length-set calls ref call') b in
        set_cases (λ i x. IsOpen x.phase → lookup x.id (delete call.id callbacks) ≡ some i) ref call
          call' e (λ o. absurd (shut o))
          (λ i x d g o.
            lookup-delete_ne call.id x.id callbacks (distinct b' ref i call x e g d)
            ∙ registered b' i x g o);
  }

  -- A new call, under the next id.
  pub insert-Kept :
      (call : PendingCall)
      → call.id ≡ u32 (n + 1)
      → IsOpen call.phase
      → CallHeard seen call
      → Kept seen call.id (insert call.id (length calls) callbacks) (calls ++ call ∷ [])
  insert-Kept call next alive p =
      let own : call.id ≡ u32 (suc (length calls)) = omega (arith, next, counted) in
      record {
        owned = λ k j l. elim (nat_eq_or_ne call.id k) [
          | inl q ↦
              subst (λ i. Owned k (get_elem? (calls ++ call ∷ []) i))
                (some_eq (
                  sym (lookup-insert_self call.id (length calls) callbacks)
                  ∙ subst (λ i. lookup i (insert call.id (length calls) callbacks) ≡ some j) (sym q)
                      l))
                (subst (Owned k) (sym (get_elem?-append_length calls call [])) (q, alive))
          | inr q ↦
              (let old =
                  owned k j (sym (lookup-insert_ne call.id k (length calls) callbacks q) ∙ l) in
                subst (Owned k)
                  (sym (get_elem?-append_lt calls (call ∷ []) j (Owned-lt k calls j old))) old)
        ];
        heard = All-snoc (CallHeard seen) calls call heard p;
        counted = own ∙ ap u32 (omega (arith, length-append calls (call ∷ [])));
        numbered = snoc_cases (λ i x. x.id ≡ u32 (suc i)) call own (λ i x d g. numbered i x g);
        registered = λ b.
            let b' : suc (length calls) < 2 ^ 32 =
              omega (arith, b, length-append calls (call ∷ [])) in
            snoc_cases
              (λ i x.
                IsOpen x.phase → lookup x.id (insert call.id (length calls) callbacks) ≡ some i)
              call (λ o. lookup-insert_self call.id (length calls) callbacks)
              (λ i x d g o.
                lookup-insert_ne call.id x.id (length calls) callbacks (λ same. lt_ne d (
                  sym (
                    u32-suc_eq (length calls) i b' (omega (arith, b', d))
                      (sym own ∙ same ∙ numbered i x g))))
                ∙ registered (omega (arith, b')) i x g o);
      }

pub phase_later :
    (r : IpcRespMessage) (seen : List IpcRespMessage) (k : ℕ) (x : Phase)
    → PhaseHeard seen k x
    → PhaseHeard (r ∷ seen) k x
phase_later r seen k (over (ok p)) h = inr h
phase_later r seen k (over (fail e)) h = tt
phase_later r seen k (over panics) h = tt
phase_later r seen k stored h = tt
phase_later r seen k waiting h = tt
