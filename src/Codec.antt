-- ===== src/Codec.antt =====
-- codec.go: the `Codec` interface, the two generic helpers on it, and the codecs over the standard
-- library's json and gob, whose encoders and decoders are arguments.
use plugo.Prelude.{ℕ, List, Option, none, some, String}
use plugo.Io.{text, Result, fail, wrap}

-- `V` is the type of the values that the application passes as `any`.
pub record Codec (V : Type 0) : Type 0 where
  pub name : String
  pub marshal : V → Result (List ℕ)
  pub unmarshal : List ℕ → Result V

module _ {V : Type 0} where
  -- The codec argument is nil, or a codec.
  unfoldable pub marshal : Option (Codec V) → V → Result (List ℕ)
  marshal none v = fail (text "codec cannot be nil")
  marshal (some c) v = c.marshal v

  pub unmarshal : Option (Codec V) → List ℕ → Result V
  unmarshal none bs = fail (text "codec cannot be nil")
  unmarshal (some c) bs = c.unmarshal bs

  -- `encode` and `decode` stand for `json.Marshal` and `json.Unmarshal`.
  unfoldable pub json_codec : (V → Result (List ℕ)) → (List ℕ → Result V) → Codec V
  json_codec encode decode = record {
    name = "json";
    marshal = λ v. wrap "json marshal failed" (encode v);
    unmarshal = λ bs. wrap "json unmarshal failed" (decode bs);
  }

  -- `encode` and `decode` stand for a `gob.Encoder` on a fresh buffer and a `gob.Decoder` on the bytes.
  unfoldable pub gob_codec : (V → Result (List ℕ)) → (List ℕ → Result V) → Codec V
  gob_codec encode decode = record {
    name = "gob";
    marshal = λ v. wrap "gob encode failed" (encode v);
    unmarshal = λ bs. wrap "gob decode failed" (decode bs);
  }
