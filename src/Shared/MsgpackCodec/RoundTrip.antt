-- ===== src/Shared/MsgpackCodec/RoundTrip.antt =====
-- A message through the codec, and what the codec refuses.
use plugo.Prelude.{ℕ, ◌≡◌, refl, sym, List, [], append-nil, some}
use plugo.Io.{wrap, Result, ok, fail, text}
use plugo.Codec.{marshal}
use plugo.Generic.RoundTrip.{RoundTrips}
use plugo.Shared.Small.{
  IsSmallExtra, IsSmallInfo, IsSmallResult, IsSmallRequest, IsSmallResponse, IsSmallReqMessage,
  IsSmallRespMessage,
}
use plugo.Shared.Msgp.{Msgp, Source, Reads, ReadsBack}
use plugo.Shared.Layout.{
  marshal_extra_result_lem, marshal_task_info_lem, marshal_task_result_lem,
  marshal_request_payload_lem, marshal_response_payload_lem, marshal_ipc_req_lem,
  marshal_ipc_resp_lem,
}
use plugo.Shared.Reading.{
  extra_result-Reads, task_info-Reads, task_result-Reads, request_payload-Reads,
  response_payload-Reads, ipc_req-Reads, ipc_resp-Reads,
}
use plugo.Shared.Unmarshal.{
  unmarshal_extra_result, unmarshal_task_info, unmarshal_task_result, unmarshal_request_payload,
  unmarshal_response_payload, unmarshal_ipc_req_message, unmarshal_ipc_resp_message,
}
use plugo.Shared.MsgpackCodec.{
  Kind, extra_result, task_info, task_result, request_payload, response_payload, ipc_req_message,
  ipc_resp_message, other, Struct, Any, value, pointer, msgpack_codec, marshaler, unmarshaler,
  filled,
}

-- The struct has the methods of msgp, and fits the formats.
abbrev pub IsSmall : (k : Kind) → Struct k → Type 0
IsSmall extra_result z = IsSmallExtra z
IsSmall task_info z = IsSmallInfo z
IsSmall task_result z = IsSmallResult z
IsSmall request_payload z = IsSmallRequest z
IsSmall response_payload z = IsSmallResponse z
IsSmall ipc_req_message z = IsSmallReqMessage z
IsSmall ipc_resp_message z = IsSmallRespMessage z
IsSmall other z = ⊥

-- The struct's `MarshalMsg` is a method of the pointer only.
abbrev pub NeedsPointer : Kind → Type 0
NeedsPointer extra_result = ⊥
NeedsPointer task_info = ⊥
NeedsPointer other = ⊥
NeedsPointer k = Unit {0}

module _ (lib : Msgp) {slices : Source (List ℕ)} (laws : ReadsBack lib slices (λ l. l)) where
  -- What a read takes off a slice is all there is.
  whole :
      {A : Type 0} {m : List ℕ → Result (A × List ℕ)} {a : A} {bs : List ℕ}
      → Reads (λ l. l) m a bs
      → (left : List ℕ) × (m bs ≡ ok (a, left))
  whole {bs} p = let (left, e, h) = p.read bs [] (sym (append-nil bs)) in (left, e)

  through :
      (k : Kind) (z₀ z : Struct k) {f : List ℕ → Result (List ℕ)}
      {g : List ℕ → Result (Struct k × List ℕ)} {bs : List ℕ}
      → marshaler lib slices (pointer k z) ≡ some f
      → unmarshaler lib slices (pointer k z₀) ≡ some (λ b. filled lib slices k (g b))
      → f [] ≡ ok bs
      → Reads (λ l. l) g z bs
      → RoundTrips (msgpack_codec lib slices (pointer k z₀)) (pointer k z)
  unfolding msgpack_codec
  through k z₀ z {bs} m u e p =
      let (left, d) = whole p in
      (bs, rw (msgpack_codec, m) (rw e refl), rw (msgpack_codec, u) (rw d refl))

  -- If the library reads back what it appends: a pointer to any of the seven structs whose texts and
  -- numbers fit the formats comes back through the codec, whatever the struct was that it is read into.
  pub msgpack_codec-RoundTrips :
      (k : Kind) (z₀ z : Struct k)
      → IsSmall k z
      → RoundTrips (msgpack_codec lib slices (pointer k z₀)) (pointer k z)
  unfolding marshaler unmarshaler unmarshal_extra_result unmarshal_task_info unmarshal_task_result
      unmarshal_request_payload unmarshal_response_payload unmarshal_ipc_req_message
      unmarshal_ipc_resp_message
  msgpack_codec-RoundTrips extra_result z₀ z h =
      through extra_result z₀ z refl refl (marshal_extra_result_lem lib z [])
        (extra_result-Reads lib laws [] z₀ z h)
  msgpack_codec-RoundTrips task_info z₀ z h =
      through task_info z₀ z refl refl (marshal_task_info_lem lib z [])
        (task_info-Reads lib laws [] z₀ z h)
  msgpack_codec-RoundTrips task_result z₀ z h =
      through task_result z₀ z refl refl (marshal_task_result_lem lib z [])
        (task_result-Reads lib laws [] z₀ z h)
  msgpack_codec-RoundTrips request_payload z₀ z h =
      through request_payload z₀ z refl refl (marshal_request_payload_lem lib z [])
        (request_payload-Reads lib laws z₀ z h)
  msgpack_codec-RoundTrips response_payload z₀ z h =
      through response_payload z₀ z refl refl (marshal_response_payload_lem lib z [])
        (response_payload-Reads lib laws z₀ z h)
  msgpack_codec-RoundTrips ipc_req_message z₀ z h =
      through ipc_req_message z₀ z refl refl (marshal_ipc_req_lem lib z [])
        (ipc_req-Reads lib laws z₀ z h)
  msgpack_codec-RoundTrips ipc_resp_message z₀ z h =
      through ipc_resp_message z₀ z refl refl (marshal_ipc_resp_lem lib z [])
        (ipc_resp-Reads lib laws z₀ z h)
  msgpack_codec-RoundTrips other z₀ z h = elim h [ ]

goes_through :
    {m : Result (List ℕ)} {bs : List ℕ}
    → m ≡ ok bs
    → (o : List ℕ) × (wrap "msgp marshal failed" m ≡ ok o)
goes_through {bs} e = (bs, rw e refl)

module _ (lib : Msgp) (slices : Source (List ℕ)) where
  -- `Marshal` of codec.go hands the codec its argument as it is: for the structs whose methods have a
  -- pointer as receiver it fails on the struct, and goes through on a pointer to it.
  pub marshal-value_refused :
      (k : Kind) (target : Any) (z : Struct k)
      → NeedsPointer k
      → (marshal (some (msgpack_codec lib slices target)) (value k z)
          ≡ fail (text "type does not implement msgp.Marshaler interface"))
        × ((bs : List ℕ) × (marshal (some (msgpack_codec lib slices target)) (pointer k z) ≡ ok bs))
  unfolding marshal msgpack_codec marshaler
  marshal-value_refused task_result target z h =
      (refl, goes_through (marshal_task_result_lem lib z []))
  marshal-value_refused request_payload target z h =
      (refl, goes_through (marshal_request_payload_lem lib z []))
  marshal-value_refused response_payload target z h =
      (refl, goes_through (marshal_response_payload_lem lib z []))
  marshal-value_refused ipc_req_message target z h =
      (refl, goes_through (marshal_ipc_req_lem lib z []))
  marshal-value_refused ipc_resp_message target z h =
      (refl, goes_through (marshal_ipc_resp_lem lib z []))
  marshal-value_refused extra_result target z h = elim h [ ]
  marshal-value_refused task_info target z h = elim h [ ]
  marshal-value_refused other target z h = elim h [ ]
