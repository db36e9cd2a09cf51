-- ===== src/Together/Ready.antt =====
-- Both sides between two calls, and with one under way on a link that works.
use plugo.Prelude.{nat_eq, ℕ, ◌+◌, ◌≡◌, sym, subst, true, List, [], nat_eq}
use plugo.Io.{ok}
use plugo.Codec.{Codec}
use plugo.Wire.{u32}
use plugo.System.Sending.{FitsWrite}
use plugo.Shared.{ResponsePayload, IpcReqMessage}
use plugo.Runner.{PluginConfig, Values, response_to}
use plugo.IpcClient.{PendingCall, Payloads, Phase, stored}
use plugo.IpcClient.Acts
use plugo.Together.{Event, Together, host_acts, begins, perform}
use plugo.Together.Steady.{Steady}
use plugo.Together.Calling.{Going, begin_call-Going, begin_call-conn}

module _ {V : Type 0} (payloads : Payloads V) (values : Values V) (cfg : PluginConfig)
    (host_codec plugin_codec : Codec V) where
  -- The codecs bring this request to the plugin, and its response to the host.
  pub record Brought (q : IpcReqMessage) : Type 0 where
    pub request_bytes : List ℕ
    pub request_value : V
    pub request_out : host_codec.marshal (payloads.request q) ≡ ok request_bytes
    pub request_fits : FitsWrite request_bytes
    pub request_in : plugin_codec.unmarshal request_bytes ≡ ok request_value
    pub request_read : values.message request_value ≡ q
    pub response_bytes : List ℕ
    pub response_value : V
    pub response_out :
        plugin_codec.marshal (values.outgoing (response_to cfg q)) ≡ ok response_bytes
    pub response_fits : FitsWrite response_bytes
    pub response_in : host_codec.unmarshal response_bytes ≡ ok response_value
    pub response_read : payloads.response response_value ≡ response_to cfg q

  -- Both loops run, no call waits, and nothing is written, on its way or queued.
  pub record Ready (s : Together V) : Type 0 where
    pub reading : s.host.reading ≡ true
    pub serves : s.serving ≡ true
    pub nobody_waits : s.host.callbacks ≡ []
    pub host_conn : Steady host_codec [] [] [] s.host.conn
    pub plugin_conn : Steady plugin_codec [] [] [] s.plugin

  -- A call is under way, and so are these bytes and messages: to come, queued and written at either side.
  pub record Stage (before : List PendingCall) (k : ℕ) (l : List ResponsePayload) (x : Phase)
      (hi : List ℕ) (hq : List (List ℕ)) (ho pi : List ℕ) (pq : List (List ℕ)) (po : List ℕ)
      (s : Together V) : Type 0 where
    pub going : Going payloads before k l x s.host
    pub serves : s.serving ≡ true
    pub host_conn : Steady host_codec hi hq ho s.host.conn
    pub plugin_conn : Steady plugin_codec pi pq po s.plugin

  abbrev pub step : Event → Together V → Together V
  step = perform payloads values cfg

  pub begins-Stage :
      (s : Together V)
      → Ready s
      → Stage s.host.calls
          (u32 (s.host.active_id + 1))
          []
          stored
          []
          []
          []
          []
          []
          []
          (step (host_acts begins) s)
  unfolding perform Acts.perform
  begins-Stage s r = record {
    going = begin_call-Going payloads s.host r.reading r.nobody_waits;
    serves = r.serves;
    host_conn =
        subst (Steady host_codec [] [] []) (sym (begin_call-conn payloads s.host)) r.host_conn;
    plugin_conn = r.plugin_conn;
  }
