-- ===== src/Together/BothSides.antt =====
-- The invariant of both sides: what is under way to the plugin are requests that calls have written, and what is
-- under way to the host are the plugin's responses to such requests.
use plugo.Prelude.{All, All-map, ℕ, ◌≡◌, List, some, lookup, nat_eq}
use plugo.Io.{ok}
use plugo.Conn.{MessageConn}
use plugo.Shared.{IpcReqMessage, IpcRespMessage}
use plugo.IpcClient.{Payloads}
use plugo.Codec.{Codec}
use plugo.System.Sending.{FitsWrite}
use plugo.Runner.{PluginConfig, Values, response_to}
use plugo.Together.Ends.{Side-map}
use plugo.Together.Linked.{Linked}
use plugo.Together.Requests.{Extends}

module _ {V : Type 0} (payloads : Payloads V) (values : Values V) (cfg : PluginConfig)
    (host_codec plugin_codec : Codec V) where
  -- The codecs bring this request to the plugin and its response to the host, where they marshal and
  -- unmarshal them, and neither is too long for a frame.
  pub record Carried (q : IpcReqMessage) : Type 0 where
    pub request_fits :
        (bs : List ℕ) → host_codec.marshal (payloads.request q) ≡ ok bs → FitsWrite bs
    pub request_read :
        (bs : List ℕ) (v : V)
        → host_codec.marshal (payloads.request q) ≡ ok bs
        → plugin_codec.unmarshal bs ≡ ok v
        → values.message v ≡ q
    pub response_fits :
        (bs : List ℕ)
        → plugin_codec.marshal (values.outgoing (response_to cfg q)) ≡ ok bs
        → FitsWrite bs
    pub response_read :
        (bs : List ℕ) (v : V)
        → plugin_codec.marshal (values.outgoing (response_to cfg q)) ≡ ok bs
        → host_codec.unmarshal bs ≡ ok v
        → payloads.response v ≡ response_to cfg q

  -- The request is among those that have been asked, and the codecs carry it.
  abbrev pub IsAsked : List (ℕ × IpcReqMessage) → ℕ → IpcReqMessage → Type 0
  IsAsked asked ref q = (lookup ref asked ≡ some q) × Carried q

  -- The bytes of a request that a call has written, and of the plugin's response to one.
  pub record IsRequest (asked : List (ℕ × IpcReqMessage)) (bs : List ℕ) : Type 0 where
    pub ref : ℕ
    pub request : IpcReqMessage
    pub written : lookup ref asked ≡ some request
    pub carried : Carried request
    pub encoded : host_codec.marshal (payloads.request request) ≡ ok bs

  pub record IsReply (asked : List (ℕ × IpcReqMessage)) (bs : List ℕ) : Type 0 where
    pub ref : ℕ
    pub request : IpcReqMessage
    pub written : lookup ref asked ≡ some request
    pub carried : Carried request
    pub encoded : plugin_codec.marshal (values.outgoing (response_to cfg request)) ≡ ok bs

  -- A response that the host has read.
  pub record IsAnswer (asked : List (ℕ × IpcReqMessage)) (r : IpcRespMessage) : Type 0 where
    pub ref : ℕ
    pub request : IpcReqMessage
    pub written : lookup ref asked ≡ some request
    pub answers : r ≡ response_to cfg request

  pub record BothSides (asked : List (ℕ × IpcReqMessage)) (seen : List IpcRespMessage)
      (host plugin : MessageConn V) : Type 0 where
    pub linked : Linked (IsReply asked) (IsRequest asked) host_codec plugin_codec host plugin
    pub heard : All (IsAnswer asked) seen

  pub IsRequest-fits :
      (asked : List (ℕ × IpcReqMessage)) (bs : List ℕ) → IsRequest asked bs → FitsWrite bs
  IsRequest-fits asked bs h = h.carried.request_fits bs h.encoded

  pub IsReply-fits :
      (asked : List (ℕ × IpcReqMessage)) (bs : List ℕ) → IsReply asked bs → FitsWrite bs
  IsReply-fits asked bs h = h.carried.response_fits bs h.encoded

  module _ {asked asked' : List (ℕ × IpcReqMessage)} (grown : Extends asked asked') where
    IsRequest-Extends : (bs : List ℕ) → IsRequest asked bs → IsRequest asked' bs
    IsRequest-Extends bs h = record {
      ref = h.ref;
      request = h.request;
      written = grown h.ref h.request h.written;
      carried = h.carried;
      encoded = h.encoded;
    }

    IsReply-Extends : (bs : List ℕ) → IsReply asked bs → IsReply asked' bs
    IsReply-Extends bs h = record {
      ref = h.ref;
      request = h.request;
      written = grown h.ref h.request h.written;
      carried = h.carried;
      encoded = h.encoded;
    }

    IsAnswer-Extends : (r : IpcRespMessage) → IsAnswer asked r → IsAnswer asked' r
    IsAnswer-Extends r h = record {
      ref = h.ref;
      request = h.request;
      written = grown h.ref h.request h.written;
      answers = h.answers;
    }

    pub BothSides-Extends :
        (seen : List IpcRespMessage) (host plugin : MessageConn V)
        → BothSides asked seen host plugin
        → BothSides asked' seen host plugin
    BothSides-Extends seen host plugin b = record {
      linked = record {
        near_side =
            Side-map (IsReply asked') plugin.rwc.output host IsReply-Extends b.linked.near_side;
        far_side =
            Side-map (IsRequest asked') host.rwc.output plugin IsRequest-Extends b.linked.far_side;
      };
      heard = All-map seen IsAnswer-Extends b.heard;
    }
