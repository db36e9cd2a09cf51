-- ===== src/Together/Calling.antt =====
-- One `Call` from its start to its return, over a link that works.
use plugo.Prelude.{
  ℕ, ◌+◌, ◌≡◌, refl, sym, ap, subst, ◌∙◌, ◌++◌, true, List, [], ◌∷◌, some, length, get_elem?, set,
  lookup, nat_eq, get_elem?-append_length, set-append_length, lookup-insert_self, delete, insert,
  nat_beq_iff,
}
use plugo.Io.{ok}
use plugo.Context.{background, quiet}
use plugo.Wire.{u32}
use plugo.Conn.{MessageConn}
use plugo.Reader.{channel, returned}
use plugo.Generic.{read_value, write_value}
use plugo.Shared.{RequestPayload, ResponsePayload}
use plugo.IpcClient.{
  IpcClient, PendingCall, over, Payloads, Phase, stored, waiting, result, client_ctx, begin_call,
  write_call, await_call, read_round, end_call, after_write,
}
use plugo.IpcClient.Delivery.{
  call_with, dispatch_response-sent, await_call-got, read_round-returned,
}

delete_only : (k n : ℕ) → delete k ((k, n) ∷ []) ≡ []
delete_only k n = rw ((nat_beq_iff k k).1 refl) refl

module _ {V : Type 0} (payloads : Payloads V) where
  pub write_call-waiting :
      (cmd : List ℕ) (payload : RequestPayload) (n k : ℕ) (c : IpcClient V) (m : MessageConn V)
      → get_elem? c.calls n ≡ some (call_with k [] stored)
      → write_value background
          (payloads.request (record { id = k; command = cmd; payload = payload }))
          c.conn
        ≡ (ok tt, m)
      → write_call payloads background cmd payload n c
        ≡ record c { conn = m; calls = set c.calls n (call_with k [] waiting) }
  unfolding write_call
  write_call-waiting cmd payload n k c m e w =
      rw (write_call, e)
        (ap (λ x. after_write n (call_with k [] stored) x.0 (record c { conn = x.1 })) w)

  -- The client's latest call, behind these others, under its id.
  pub record Going (before : List PendingCall) (k : ℕ) (l : List ResponsePayload) (x : Phase)
      (c : IpcClient V) : Type 0 where
    pub whole : c.calls ≡ before ++ call_with k l x ∷ []
    pub counted : c.active_id ≡ k
    pub named : lookup k c.callbacks ≡ some (length before)
    pub alone : c.callbacks ≡ (k, length before) ∷ []
    pub reading : c.reading ≡ true

  pub begin_call-Going :
      (c : IpcClient V)
      → c.reading ≡ true
      → c.callbacks ≡ []
      → Going c.calls (u32 (c.active_id + 1)) [] stored (begin_call c)
  unfolding begin_call
  begin_call-Going c h e = record {
    whole = refl;
    counted = refl;
    named = lookup-insert_self (u32 (c.active_id + 1)) (length c.calls) c.callbacks;
    alone = ap (insert (u32 (c.active_id + 1)) (length c.calls)) e;
    reading = h;
  }

  pub begin_call-conn : (c : IpcClient V) → (begin_call c).conn ≡ c.conn
  unfolding begin_call
  begin_call-conn c = refl

  module _ (before : List PendingCall) (k : ℕ) where
    pub Going-found :
        (l : List ResponsePayload) (x : Phase) (c : IpcClient V)
        → Going before k l x c
        → get_elem? c.calls (length before) ≡ some (call_with k l x)
    Going-found l x c g =
        ap (λ cs. get_elem? cs (length before)) g.whole
        ∙ get_elem?-append_length before (call_with k l x) []

    set_whole :
        (l : List ResponsePayload) (x : Phase) (c : IpcClient V) (call : PendingCall)
        → Going before k l x c
        → set c.calls (length before) call ≡ before ++ call ∷ []
    set_whole l x c call g =
        ap (λ cs. set cs (length before) call) g.whole
        ∙ set-append_length before (call_with k l x) call []

    pub set-Going :
        (l l' : List ResponsePayload) (x x' : Phase) (c : IpcClient V) (m : MessageConn V)
        → Going before k l x c
        → Going before k l' x'
            (record c { conn = m; calls = set c.calls (length before) (call_with k l' x') })
    set-Going l l' x x' c m g = record {
      whole = set_whole l x c (call_with k l' x') g;
      counted = g.counted;
      named = g.named;
      alone = g.alone;
      reading = g.reading;
    }

    pub conn-Going :
        (l : List ResponsePayload) (x : Phase) (c : IpcClient V) (m : MessageConn V)
        → Going before k l x c
        → Going before k l x (record c { conn = m })
    conn-Going l x c m g = record {
      whole = g.whole;
      counted = g.counted;
      named = g.named;
      alone = g.alone;
      reading = g.reading;
    }

    -- A round of `readLoop` that reads the call's response.
    pub read_round-handed :
        (c : IpcClient V) (v : V) (m : MessageConn V)
        → Going before k [] waiting c
        → read_value channel (client_ctx quiet c) c.conn ≡ returned (ok v) m
        → (payloads.response v).id ≡ k
        → read_round payloads channel quiet c ≡ record c {
          conn = m;
          calls =
              set c.calls
                (length before)
                (call_with k ((payloads.response v).payload ∷ []) waiting);
        }
    read_round-handed c v m g r i =
        read_round-returned payloads channel quiet c (returned (ok v) m) g.reading r
        ∙ dispatch_response-sent (record c { conn = m }) (payloads.response v) (length before) k
            (ap (λ j. lookup j c.callbacks) i ∙ g.named) (Going-found [] waiting c g)

    -- The call has returned this, no callback is left, and the client is otherwise as it was.
    pub record Over (p : ResponsePayload) (m : MessageConn V) (c : IpcClient V) : Type 0 where
      pub whole : c.calls ≡ before ++ call_with k [] (over (ok p)) ∷ []
      pub counted : c.active_id ≡ k
      pub none_left : c.callbacks ≡ []
      pub reading : c.reading ≡ true
      pub same_conn : c.conn ≡ m

    pub await_call-Over :
        (c : IpcClient V) (p : ResponsePayload)
        → Going before k (p ∷ []) waiting c
        → Over p c.conn (await_call result background (length before) c)
    unfolding end_call
    await_call-Over c p g =
        let got =
          await_call-got background c (length before) k p (Going-found (p ∷ []) waiting c g) in
        subst (Over p c.conn) (sym got) (record {
          whole = set_whole (p ∷ []) waiting c (call_with k [] (over (ok p))) g;
          counted = g.counted;
          none_left = ap (delete k) g.alone ∙ delete_only k (length before);
          reading = g.reading;
          same_conn = refl;
        })
