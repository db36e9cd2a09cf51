-- ===== src/Together/Sound.antt =====
-- What is known of both sides, and that every event keeps it.
use plugo.Prelude.{
  take, All, nat_beq_iff, ℕ, ◌≡◌, refl, sym, subst, ◌∙◌, Bool, true, false, List, [], ◌∷◌, lookup,
  nat_eq, if◌then◌else◌, ap,
}
use plugo.Chan.{crashes}
use plugo.Conn.{MessageConn}
use plugo.Reader.{Pick}
use plugo.Shared.{IpcReqMessage, IpcRespMessage}
use plugo.IpcClient.{IpcClient, Payloads, begin_call, close_client}
use plugo.IpcClient.Acts
use plugo.IpcClient.Acts.{ClientAct}
use plugo.Codec.{Codec}
use plugo.System
use plugo.System.{after_turn, arrival}
use plugo.Runner.{PluginConfig, Values, Round, goes_on, idle, leaves, crashes, serve_round}
use plugo.Together.{HostAct, Event, Together, after_round}
use plugo.Together.Linked.{Linked-swap, close_conn-Linked}
use plugo.Together.BothSides.{Carried, BothSides}
use plugo.Together.Conns.{await_call-conn}
use plugo.IpcClient.Steps.{KeptClient}
use plugo.IpcClient.Answers.{perform-Kept}
use plugo.Together.{
  HostAct, begins, writes, awaits, reads, closes, turns, client_act, Event, Together, History,
  host_acts, plugin_turns, plugin_serves, to_plugin, to_host, perform, note, run, ask,
}
use plugo.Together.Linked.{loop_turn-Linked, arrival-Linked}
use plugo.Together.Requests.{Written, perform-Asks}
use plugo.Together.BothSides.{IsAsked, BothSides-Extends, IsRequest-fits, IsReply-fits}
use plugo.Together.HostMessages.{read_round-Kept, write_call-Kept}
use plugo.Together.PluginMessages.{serve_round-Kept}
use plugo.Together.Asking.{ask-keeps, ask-stored}

if_either : {A : Type 0} (P : A → Type 0) (b : Bool) (x y : A) → P x → P y → P (if b then x else y)
if_either P true x y p q = p
if_either P false x y p q = q

module _ {V : Type 0} (payloads : Payloads V) (values : Values V) (cfg : PluginConfig)
    (host_codec plugin_codec : Codec V) where
  abbrev pub AllCarried : List (ℕ × IpcReqMessage) → Type 0
  AllCarried l = All (λ e. Carried payloads values cfg host_codec plugin_codec e.1) l

  -- What is known of the client's calls, and, if all requests are carried, of both connections.
  pub record Sound (h : History) (s : Together V) : Type 0 where
    pub kept : KeptClient h.seen s.host
    pub written : Written h.asked s.host.calls
    pub sides :
        AllCarried h.asked
        → BothSides payloads values cfg host_codec plugin_codec h.asked h.seen s.host.conn s.plugin

  abbrev Sides :
      List (ℕ × IpcReqMessage) → List IpcRespMessage → MessageConn V → MessageConn V → Type 0
  Sides = BothSides payloads values cfg host_codec plugin_codec

  head_IsAsked :
      (ref : ℕ) (q : IpcReqMessage) (l l' : List (ℕ × IpcReqMessage))
      → l ≡ (ref, q) ∷ l'
      → AllCarried l
      → IsAsked payloads values cfg host_codec plugin_codec l ref q
  head_IsAsked ref q l l' e h =
      (ap (lookup ref) e ∙ rw ((nat_beq_iff ref ref).1 refl) refl, (subst AllCarried e h).0)

  host_acts-Sides :
      (a : HostAct) (asked : List (ℕ × IpcReqMessage)) (seen : List IpcRespMessage)
      (c : IpcClient V) (plugin : MessageConn V)
      → AllCarried (ask a c asked)
      → Sides (ask a c asked) seen c.conn plugin
      → Sides
          (ask a c asked)
          (Acts.hear payloads (client_act a) c seen)
          (Acts.perform payloads (client_act a) c).conn
          plugin
  unfolding ask Acts.hear Acts.perform begin_call close_client System.perform
  host_acts-Sides begins asked seen c plugin h b = b
  host_acts-Sides (writes ctx cmd payload ref) asked seen c plugin h b =
      write_call-Kept payloads values cfg host_codec plugin_codec _ seen ctx cmd payload ref c
        plugin
        (λ call e d. head_IsAsked ref _ _ asked (ask-stored ctx cmd payload ref call c asked e d) h)
        b
  host_acts-Sides (awaits case ctx ref) asked seen c plugin h b =
      subst (λ m. Sides asked seen m plugin) (sym (await_call-conn case ctx ref c)) b
  host_acts-Sides (reads pick t) asked seen c plugin h b =
      read_round-Kept payloads values cfg host_codec plugin_codec asked seen pick t c plugin b
  host_acts-Sides closes asked seen c plugin h b = record {
    linked = close_conn-Linked c.conn plugin b.linked;
    heard = b.heard;
  }
  host_acts-Sides (turns pick) asked seen c plugin h b = record {
    linked =
        loop_turn-Linked c.conn plugin b.linked pick
          (IsReply-fits payloads values cfg host_codec plugin_codec asked);
    heard = b.heard;
  }

  perform-Sides :
      (e : Event) (h : History) (s : Together V)
      → AllCarried (note payloads e s h).asked
      → Sides (note payloads e s h).asked h.seen s.host.conn s.plugin
      → Sides
          (note payloads e s h).asked
          (note payloads e s h).seen
          (perform payloads values cfg e s).host.conn
          (perform payloads values cfg e s).plugin
  unfolding note perform
  perform-Sides (host_acts a) h s k b = host_acts-Sides a h.asked h.seen s.host s.plugin k b
  perform-Sides (plugin_turns pick) h s k b = record {
    linked = Linked-swap _ s.host.conn (
        loop_turn-Linked s.plugin s.host.conn (Linked-swap s.host.conn s.plugin b.linked) pick
          (IsRequest-fits payloads values cfg host_codec plugin_codec h.asked));
    heard = b.heard;
  }
  perform-Sides (plugin_serves pick) h s k b =
      if_either (λ y. Sides h.asked h.seen y.host.conn y.plugin) s.serving
        (after_round values cfg s (serve_round values cfg pick s.plugin)) s
        (serve_round-Kept payloads values cfg host_codec plugin_codec h.asked h.seen pick s b) b
  perform-Sides (to_plugin n) h s k b = record {
    linked = arrival-Linked s.host.conn s.plugin b.linked n;
    heard = b.heard;
  }
  perform-Sides (to_host n) h s k b = record {
    linked =
        Linked-swap _ (arrival (take n s.plugin.rwc.output) s.host.conn)
          (arrival-Linked s.plugin s.host.conn (Linked-swap s.host.conn s.plugin b.linked) n);
    heard = b.heard;
  }

  after_round-host :
      (s : Together V) (x : Round (MessageConn V)) → (after_round values cfg s x).host ≡ s.host
  after_round-host s (goes_on m) = refl
  after_round-host s idle = refl
  after_round-host s (leaves m) = refl
  after_round-host s crashes = refl

  serves-host :
      (pick : Pick) (s : Together V)
      → (perform payloads values cfg (plugin_serves pick) s).host ≡ s.host
  unfolding perform
  serves-host pick s =
      if_either (λ y. y.host ≡ s.host) s.serving
        (after_round values cfg s (serve_round values cfg pick s.plugin)) s
        (after_round-host s (serve_round values cfg pick s.plugin)) refl

  grown_Sound :
      (h : History) (s : Together V) (a : HostAct)
      → Sound h s
      → Sound (note payloads (host_acts a) s h) (perform payloads values cfg (host_acts a) s)
  unfolding note perform
  grown_Sound h s a v =
      let (grown, written) = perform-Asks payloads a h.asked s.host v.written in
      record {
        kept = perform-Kept payloads (client_act a) h.seen s.host v.kept;
        written = written;
        sides = λ k. host_acts-Sides a h.asked h.seen s.host s.plugin k (
            BothSides-Extends payloads values cfg host_codec plugin_codec grown h.seen s.host.conn
              s.plugin
              (v.sides (
                ask-keeps (Carried payloads values cfg host_codec plugin_codec) a s.host h.asked
                  k)));
      }

  perform-Sound :
      (e : Event) (h : History) (s : Together V)
      → Sound h s
      → Sound (note payloads e s h) (perform payloads values cfg e s)
  unfolding note perform
  perform-Sound (host_acts a) h s v = grown_Sound h s a v
  perform-Sound (plugin_turns pick) h s v = record {
    kept = v.kept;
    written = v.written;
    sides = λ k. perform-Sides (plugin_turns pick) h s k (v.sides k);
  }
  perform-Sound (plugin_serves pick) h s v =
      let same : s.host ≡ (perform payloads values cfg (plugin_serves pick) s).host =
        sym (serves-host pick s) in
      record {
        kept = subst (KeptClient h.seen) same v.kept;
        written = subst (λ c. Written h.asked c.calls) same v.written;
        sides = λ k. perform-Sides (plugin_serves pick) h s k (v.sides k);
      }
  perform-Sound (to_plugin n) h s v = record {
    kept = v.kept;
    written = v.written;
    sides = λ k. perform-Sides (to_plugin n) h s k (v.sides k);
  }
  perform-Sound (to_host n) h s v = record {
    kept = v.kept;
    written = v.written;
    sides = λ k. perform-Sides (to_host n) h s k (v.sides k);
  }

  pub run-Sound :
      (l : List Event) (h : History) (s : Together V)
      → Sound h s
      → Sound (run payloads values cfg l (h, s)).0 (run payloads values cfg l (h, s)).1
  unfolding run
  run-Sound [] h s v = v
  run-Sound (e ∷ l) h s v = run-Sound l _ _ (perform-Sound e h s v)
