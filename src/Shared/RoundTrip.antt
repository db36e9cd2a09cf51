-- ===== src/Shared/RoundTrip.antt =====
-- The messages survive `MarshalMsg` or `EncodeMsg`, and `UnmarshalMsg` or `DecodeMsg`.
use plugo.Prelude.{
  ℕ, ◌<◌, ◌≡◌, ◌≢◌, ap, sym, ◌∙◌, arith, List, [], ◌++◌, length, bytes_of, bytes_eq, same_ne,
}
use plugo.Io.{Result, ok}
use plugo.Shared.{IpcReqMessage, IpcRespMessage}
use plugo.Shared.Small.{IsSmallReqMessage, IsSmallRespMessage}
use plugo.Shared.Msgp.{Msgp, Source, Reads, ReadsBack, key, map_head}
use plugo.Shared.Encode.{marshal_ipc_req_message, marshal_ipc_resp_message}
use plugo.Shared.Decode.{ipc_req_field, decode_ipc_req_message, decode_ipc_resp_message}
use plugo.Shared.Layout.{ipc_req_fields, marshal_ipc_req_lem, marshal_ipc_resp_lem}
use plugo.Shared.Reading.{
  chain, last, at_path, next_field, ipc_req-Reads, ipc_resp-Reads, ipc_req_fields_read,
}

ok_eq : {A : Type 0} {a b : A} → Result.ok a ≡ ok b → a ≡ b
ok_eq e = cc

module _ (lib : Msgp) {S : Type 0} {dc : Source S} {rest : S → List ℕ}
    (laws : ReadsBack lib dc rest) where
  -- If the library reads back what it appends: a request whose texts and numbers fit the formats, which
  -- `MarshalMsg` has put into a slice, is read back whole by `DecodeMsg`, into whatever message was there,
  -- and the input stands behind it.
  pub decode-marshal_ipc_req :
      (z₀ z : IpcReqMessage) (bs after : List ℕ) (s : S)
      → IsSmallReqMessage z
      → marshal_ipc_req_message lib z [] ≡ ok bs
      → rest s ≡ bs ++ after
      → (s' : S) × (decode_ipc_req_message lib dc z₀ s ≡ ok (z, s')) × (rest s' ≡ after)
  decode-marshal_ipc_req z₀ z bs after s h m e =
      (ipc_req-Reads lib laws z₀ z h).read s after
        (e ∙ ap (λ l. l ++ after) (ok_eq (sym m ∙ marshal_ipc_req_lem lib z [])))

  -- The same for a response.
  pub decode-marshal_ipc_resp :
      (z₀ z : IpcRespMessage) (bs after : List ℕ) (s : S)
      → IsSmallRespMessage z
      → marshal_ipc_resp_message lib z [] ≡ ok bs
      → rest s ≡ bs ++ after
      → (s' : S) × (decode_ipc_resp_message lib dc z₀ s ≡ ok (z, s')) × (rest s' ≡ after)
  decode-marshal_ipc_resp z₀ z bs after s h m e =
      (ipc_resp-Reads lib laws z₀ z h).read s after
        (e ∙ ap (λ l. l ++ after) (ok_eq (sym m ∙ marshal_ipc_resp_lem lib z [])))

  ipc_req_skips :
      (z : IpcReqMessage) (k v : List ℕ)
      → k ≢ bytes_of "id"
      → k ≢ bytes_of "command"
      → k ≢ bytes_of "payload"
      → Reads rest dc.skip tt v
      → Reads rest (ipc_req_field lib dc k z) z v
  unfolding ipc_req_field
  ipc_req_skips z k v a b c skips = rw (same_ne k (bytes_of "id") a) (
      rw (same_ne k (bytes_of "command") b)
        (rw (same_ne k (bytes_of "payload") c) (last _ (at_path lib laws [] skips))))

  -- A newer peer may send a field that this side does not know: a request that fits the formats, with one
  -- in front whose key is none of the three and shorter than 32 bytes, whatever its value is, as long as
  -- the library can skip it, is read as the request.
  pub decode_ipc_req-unknown :
      (z₀ z : IpcReqMessage) (k v after : List ℕ) (s : S)
      → IsSmallReqMessage z
      → length k < 32
      → k ≢ bytes_of "id"
      → k ≢ bytes_of "command"
      → k ≢ bytes_of "payload"
      → Reads rest dc.skip tt v
      → rest s ≡ (map_head 4 ++ (key k ++ (v ++ ipc_req_fields lib z))) ++ after
      → (s' : S) × (decode_ipc_req_message lib dc z₀ s ≡ ok (z, s')) × (rest s' ≡ after)
  unfolding decode_ipc_req_message
  decode_ipc_req-unknown z₀ z k v after s h short a b c skips e =
      (chain _ (at_path lib laws [] (laws.reads_map_header 4 (omega arith))) (
          next_field lib laws [] (ipc_req_field lib dc) 3 k short (ipc_req_skips z₀ k v a b c skips)
            (ipc_req_fields_read lib laws z₀ z h))).read
        s after e
