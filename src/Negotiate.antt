-- ===== src/Negotiate.antt =====
-- negotiate.go: the handshake of host and plugin. Frames have a 4-byte length and a JSON payload.
pub mod Choice
pub mod Sides
pub mod Agreement
use plugo.Prelude.{
  ℕ, ◌+◌, ◌-◌, ◌++◌, Bool, true, false, List, [], ◌∷◌, Option, none, some, String, if◌then◌else◌,
  ltb, length, take, map, ◌==◌, ◌||◌, nat_eq, string_eq, insert, lookup,
}
use plugo.Io.{
  Failure, text, text_names, wrapped, Result, ok, fail, panics, wrap, Rwc, Io, read_full, write,
  ◌>>=◌, ◌>>◌, throw, lift, wrapping,
}
use plugo.Context.{Ctx, with_context}
use plugo.Wire.{u32, put_uint32, uint32}
use plugo.Codec.{Codec}
use plugo.Conn.{MessageConn, new_message_conn, start_read_loop}

-- `encoding/json` at the two handshake structs: a list of names, and a name.
pub record Json : Type 0 where
  pub encode_request : List String → Result (List ℕ)
  pub decode_request : List ℕ → Result (List String)
  pub encode_response : String → Result (List ℕ)
  pub decode_response : List ℕ → Result String

-- What the context says at each of a handshake's three calls.
pub record Ctxs : Type 0 where
  pub at_write : Ctx
  pub at_length : Ctx
  pub at_payload : Ctx

-- `make([]byte, 4+n)` with the length in front; the size is a `uint32`.
unfoldable pub length_prefixed : List ℕ → Result (List ℕ)
length_prefixed bs =
    let n = u32 (length bs) in
    let size = u32 (4 + n) in if ltb size 4 then panics else ok (put_uint32 n ++ take (size - 4) bs)

-- A frame of the handshake: its errors are wrapped by the texts given, and its length is not 0.
abbrev pub read_prefixed : String → String → String → Ctxs → Io (List ℕ)
read_prefixed at_len at_zero at_load cs = do
  len ← wrapping (wrapped at_len) (with_context cs.at_length (read_full 4))
  if uint32 len == 0
      then throw (text at_zero)
      else wrapping (wrapped at_load) (with_context cs.at_payload (read_full (uint32 len)))

-- `slices.Contains`
abbrev pub contains : List String → String → Bool
contains [] s = false
contains (x ∷ xs) s = x == s || contains xs s

module _ {V : Type 0} where
  abbrev pub names : List (Codec V) → List String
  names [] = []
  names (c ∷ cs) = c.name ∷ names cs

  -- The loop that fills `codecMap`: a later codec replaces one of the same name.
  unfoldable pub codec_map : List (Codec V) → List (String × Codec V) → List (String × Codec V)
  codec_map [] m = m
  codec_map (c ∷ cs) m = codec_map cs (insert c.name c m)

  -- The plugin's loop: the first of its codecs that the host supports.
  unfoldable pub select_codec : List String → List (Codec V) → Option (Codec V)
  select_codec supported [] = none
  select_codec supported (c ∷ cs) =
      if contains supported c.name then some c else select_codec supported cs

  -- `NewMessageConn`, then `startReadLoop`
  abbrev pub connect : Codec V → Bool → Io (MessageConn V)
  connect c is_host r = (ok (start_read_loop (new_message_conn r c is_host)), r)

  module _ (json : Json) where
    abbrev pub finish_host : List (Codec V) → String → Io (MessageConn V)
    finish_host codecs selected = elim (lookup selected (codec_map codecs [])) [
      | none ↦ throw (text_names "plugin selected an unsupported codec" (selected ∷ []))
      | some c ↦ connect c true
    ]

    abbrev pub host_handshake : Ctxs → List (Codec V) → Io (MessageConn V)
    host_handshake cs codecs = do
      req ← lift (wrap "failed to marshal handshake request" (json.encode_request (names codecs)))
      buf ← lift (length_prefixed req)
      wrapping (wrapped "failed to send handshake request") (with_context cs.at_write (write buf))
      bs ←
          read_prefixed "failed to read handshake response length"
            "received invalid zero-length handshake response frame"
            "failed to read handshake response payload" cs
      selected ← lift (wrap "failed to unmarshal handshake response" (json.decode_response bs))
      finish_host codecs selected

    unfoldable pub negotiate_from_host_to_plugin : Ctxs → List (Codec V) → Io (MessageConn V)
    negotiate_from_host_to_plugin cs [] = throw (text "host supported codec list cannot be empty")
    negotiate_from_host_to_plugin cs (c ∷ rest) = host_handshake cs (c ∷ rest)

    abbrev pub confirm : Ctxs → Codec V → Io (MessageConn V)
    confirm cs c = do
      resp ← lift (wrap "failed to marshal handshake response" (json.encode_response c.name))
      buf ← lift (length_prefixed resp)
      wrapping (wrapped "failed to send handshake response") (with_context cs.at_write (write buf))
      connect c false

    abbrev pub answer : Ctxs → List (Codec V) → List String → Io (MessageConn V)
    answer cs codecs supported = elim (select_codec supported codecs) [
      | none ↦ throw (text_names "no mutual protocol codec" (supported ++ names codecs))
      | some c ↦ confirm cs c
    ]

    abbrev pub plugin_handshake : Ctxs → List (Codec V) → Io (MessageConn V)
    plugin_handshake cs codecs = do
      bs ←
          read_prefixed "failed to read handshake request length"
            "received invalid zero-length handshake request frame"
            "failed to read handshake request payload" cs
      supported ← lift (wrap "failed to unmarshal handshake request" (json.decode_request bs))
      answer cs codecs supported

    unfoldable pub negotiate_from_plugin_to_host : Ctxs → List (Codec V) → Io (MessageConn V)
    negotiate_from_plugin_to_host cs [] = throw (text "plugin supported codec list cannot be empty")
    negotiate_from_plugin_to_host cs (c ∷ rest) = plugin_handshake cs (c ∷ rest)
