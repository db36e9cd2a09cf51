-- ===== src/Together/Answers.antt =====
-- A call that returns a payload returns the one that the plugin computes for the call's own request.
use plugo.Prelude.{
  All-get, arith, All, ◌^◌, ◌<◌, ℕ, ◌≡◌, inl, inr, refl, sym, subst, ◌∙◌, ◌++◌, Bool, true, false,
  List, [], ◌∷◌, Option, none, some, length, get_elem?, lookup, Option-cases, nat_eq, get_elem?-lt,
  none_ne_some, ap,
}
use plugo.Io.{ok}
use plugo.Conn.{MessageConn}
use plugo.Shared.{ResponsePayload, IpcReqMessage, IpcRespMessage}
use plugo.IpcClient.{IpcClient, Payloads, PendingCall, Phase, over}
use plugo.Io.{Rwc}
use plugo.Codec.{Codec}
use plugo.Runner.{PluginConfig, Values, response_to}
use plugo.Together.{Event, Together}
use plugo.Conn.{start_read_loop, new_message_conn}
use plugo.Plugin.{Cmd}
use plugo.IpcClient.{new_ipc_client}
use plugo.IpcClient.Kept.{Heard, PhaseHeard, u32-suc_eq}
use plugo.IpcClient.Steps.{KeptClient}
use plugo.IpcClient.Answers.{new_ipc_client-Kept}
use plugo.Together.Ends.{Side}
use plugo.Together.{Event, Together, History, run}
use plugo.Together.Requests.{Written, WrittenBy}
use plugo.Together.Sound.{AllCarried, Sound, run-Sound}

-- Nothing has been read or written yet, nothing is on its way, and no write is going to fail by itself.
pub record IsIdle (r : Rwc) : Type 0 where
  pub nothing_in : r.input ≡ []
  pub nothing_out : r.output ≡ []
  pub writable : r.fault ≡ none

-- Both sides behind the handshake: a new client, and a plugin in its message loop.
abbrev pub joined : {V : Type 0} → Option Cmd → MessageConn V → MessageConn V → Together V
joined cmd host plugin = record { host = new_ipc_client cmd host; plugin = plugin; serving = true }

abbrev pub no_history : History
no_history = record { seen = []; asked = [] }

module _ {V : Type 0} where
  -- What the handshake leaves of a connection.
  abbrev pub connected : Codec V → Bool → Rwc → MessageConn V
  unfolding start_read_loop new_message_conn
  connected c is_host r = start_read_loop (new_message_conn r c is_host)

  connected-Side :
      (P : List ℕ → Type 0) (c : Codec V) (is_host : Bool) (r : Rwc) (out : List ℕ)
      → IsIdle r
      → out ≡ []
      → Side P c out (connected c is_host r)
  unfolding start_read_loop new_message_conn
  connected-Side P c is_host r out h o = record {
    started = refl;
    speaks = refl;
    working = h.writable;
    queued = tt;
    held = tt;
    coming = inr ([], tt, ap (λ x. x ++ out) h.nothing_in ∙ o);
  }

-- The response that was heard under an id, and what it answers.
Heard-answer :
    (P : IpcRespMessage → Type 0) (seen : List IpcRespMessage) (k : ℕ) (p : ResponsePayload)
    → All P seen
    → Heard seen k p
    → (r : IpcRespMessage) × P r × (r.id ≡ k) × (r.payload ≡ p)
Heard-answer P [] k p h x = absurd x
Heard-answer P (r ∷ seen) k p (q, h) (inl (i, j)) = (r, q, i, j)
Heard-answer P (r ∷ seen) k p (q, h) (inr x) = Heard-answer P seen k p h x

over-Heard :
    (seen : List IpcRespMessage) (k : ℕ) (x : Phase) (p : ResponsePayload)
    → PhaseHeard seen k x
    → x ≡ over (ok p)
    → Heard seen k p
over-Heard seen k x p h e = subst (PhaseHeard seen k) e h

module _ {V : Type 0} (payloads : Payloads V) (values : Values V) (cfg : PluginConfig)
    (host_codec plugin_codec : Codec V) where
  written_ref :
      (asked : List (ℕ × IpcReqMessage)) (seen : List IpcRespMessage) (c : IpcClient V)
      (ref ref' : ℕ) (call : PendingCall) (q : IpcReqMessage)
      → KeptClient seen c
      → Written asked c.calls
      → length c.calls < 2 ^ 32
      → get_elem? c.calls ref ≡ some call
      → lookup ref' asked ≡ some q
      → q.id ≡ call.id
      → ref' ≡ ref
  written_ref asked seen c ref ref' call q v w b e l i =
      elim (Option-cases (get_elem? c.calls ref')) [
        | inl d ↦ absurd (subst (WrittenBy q) d (w ref' q l))
        | inr (call', d) ↦
            let (j, _) : WrittenBy q (some call') = subst (WrittenBy q) d (w ref' q l) in
            u32-suc_eq ref' ref (omega (arith, b, get_elem?-lt c.calls ref' call' d))
              (omega (arith, b, get_elem?-lt c.calls ref call e))
              (sym (v.numbered ref' call' d) ∙ j ∙ i ∙ v.numbered ref call e)
      ]

  call_answered :
      (h : History) (s : Together V) (ref : ℕ) (call : PendingCall) (p : ResponsePayload)
      → Sound payloads values cfg host_codec plugin_codec h s
      → AllCarried payloads values cfg host_codec plugin_codec h.asked
      → length s.host.calls < 2 ^ 32
      → get_elem? s.host.calls ref ≡ some call
      → call.phase ≡ over (ok p)
      → (q : IpcReqMessage) × (lookup ref h.asked ≡ some q)
        × (q.id ≡ call.id)
        × (p ≡ (response_to cfg q).payload)
  unfolding response_to
  call_answered h s ref call p v k b e o =
      let (_, spoken, _) = All-get _ s.host.calls ref call v.kept.heard e in
      let (r, a, i, j) =
        Heard-answer _ h.seen call.id p (v.sides k).heard
          (over-Heard h.seen call.id call.phase p spoken o) in
      let own : a.request.id ≡ call.id = ap (λ x. x.id) (sym a.answers) ∙ i in
      let same =
        written_ref h.asked h.seen s.host ref a.ref call a.request v.kept v.written b e a.written
          own in
      (
        a.request,
        ap (λ n. lookup n h.asked) (sym same) ∙ a.written,
        own,
        sym j ∙ ap (λ x. x.payload) a.answers,
      )

  -- What has happened, and both sides, behind these events.
  abbrev pub outcome : Option Cmd → Rwc → Rwc → List Event → History × Together V
  outcome cmd r r' l =
      run payloads values cfg l
        (no_history, joined cmd (connected host_codec true r) (connected plugin_codec false r'))

  -- In every history of the host's client and the plugin over one link that has been idle until then, that
  -- carries no streams and whose writes do not fail of themselves, with any calls, rounds of the loops,
  -- time-outs, cancellations and closings on both sides in any order, and bytes that arrive in pieces of any
  -- size or not at all: if there were fewer than 2 ^ 32 calls, and the codecs carry each request that was
  -- written and its response, then a `Call` that returns a payload returns the payload of the plugin's
  -- response to the request that this same call wrote.
  pub await_call-response_to :
      (cmd : Option Cmd) (r r' : Rwc) (l : List Event) (ref : ℕ) (call : PendingCall)
      (p : ResponsePayload)
      → IsIdle r
      → IsIdle r'
      → AllCarried payloads values cfg host_codec plugin_codec (outcome cmd r r' l).0.asked
      → length (outcome cmd r r' l).1.host.calls < 2 ^ 32
      → get_elem? (outcome cmd r r' l).1.host.calls ref ≡ some call
      → call.phase ≡ over (ok p)
      → (q : IpcReqMessage) × (lookup ref (outcome cmd r r' l).0.asked ≡ some q)
        × (q.id ≡ call.id)
        × (p ≡ (response_to cfg q).payload)
  unfolding new_ipc_client start_read_loop new_message_conn
  await_call-response_to cmd r r' l ref call p i i' =
      let start : Sound payloads values cfg host_codec plugin_codec no_history
          (joined cmd (connected host_codec true r) (connected plugin_codec false r')) =
        record {
          kept = new_ipc_client-Kept payloads cmd (connected host_codec true r);
          written = λ n q e. absurd (none_ne_some e);
          sides = λ k. record {
            linked = record {
              near_side = connected-Side _ host_codec true r _ i i'.nothing_out;
              far_side = connected-Side _ plugin_codec false r' _ i' i.nothing_out;
            };
            heard = tt;
          };
        } in
      call_answered _ _ ref call p
        (run-Sound payloads values cfg host_codec plugin_codec l _ _ start)
