-- ===== src/Shared/MsgpackCodec.antt =====
-- codec.go of examples/shared: `MsgpackCodec`. What the application passes as `any` is a struct of
-- message.go, by value or by pointer, or something with no methods of msgp.
pub mod RoundTrip
use plugo.Prelude.{ℕ, List, [], ◌∷◌, Option, none, some, String}
use plugo.Io.{Failure, text, text_names, Result, ok, fail, panics, wrap}
use plugo.Codec.{Codec}
use plugo.Shared.{
  TaskInfo, RequestPayload, ExtraResult, TaskResult, ResponsePayload, IpcReqMessage, IpcRespMessage,
}
use plugo.Shared.Msgp.{Msgp, Source}
use plugo.Shared.Encode.{
  marshal_extra_result, marshal_task_info, marshal_task_result, marshal_request_payload,
  marshal_response_payload, marshal_ipc_req_message, marshal_ipc_resp_message,
}
use plugo.Shared.Unmarshal.{
  unmarshal_extra_result, unmarshal_task_info, unmarshal_task_result, unmarshal_request_payload,
  unmarshal_response_payload, unmarshal_ipc_req_message, unmarshal_ipc_resp_message,
}

pub data Kind : Type 0 where
  extra_result task_info task_result request_payload response_payload : Kind
  ipc_req_message ipc_resp_message other : Kind

abbrev pub Struct : Kind → Type 0
Struct extra_result = ExtraResult
Struct task_info = TaskInfo
Struct task_result = TaskResult
Struct request_payload = RequestPayload
Struct response_payload = ResponsePayload
Struct ipc_req_message = IpcReqMessage
Struct ipc_resp_message = IpcRespMessage
Struct other = Unit

pub data Any : Type 0 where
  value : (k : Kind) → Struct k → Any
  pointer : (k : Kind) → Struct k → Any

module _ (lib : Msgp) (slices : Source (List ℕ)) where
  -- `v.(msgp.Marshaler)`: the method of a pointer, and the two that have a value as receiver.
  unfoldable pub marshaler : Any → Option (List ℕ → Result (List ℕ))
  marshaler (value extra_result z) = some (marshal_extra_result lib z)
  marshaler (value task_info z) = some (marshal_task_info lib z)
  marshaler (value k z) = none
  marshaler (pointer extra_result z) = some (marshal_extra_result lib z)
  marshaler (pointer task_info z) = some (marshal_task_info lib z)
  marshaler (pointer task_result z) = some (marshal_task_result lib z)
  marshaler (pointer request_payload z) = some (marshal_request_payload lib z)
  marshaler (pointer response_payload z) = some (marshal_response_payload lib z)
  marshaler (pointer ipc_req_message z) = some (marshal_ipc_req_message lib z)
  marshaler (pointer ipc_resp_message z) = some (marshal_ipc_resp_message lib z)
  marshaler (pointer other z) = none

  -- What the method has put behind its pointer.
  abbrev pub filled : (k : Kind) → Result (Struct k × List ℕ) → Result Any
  filled k (ok (z, left)) = ok (pointer k z)
  filled k (fail e) = fail e
  filled k panics = panics

  -- `v.(msgp.Unmarshaler)` and the call of `UnmarshalMsg`; every method has a pointer as receiver.
  unfoldable pub unmarshaler : Any → Option (List ℕ → Result Any)
  unmarshaler (value k z) = none
  unmarshaler (pointer extra_result z) =
      some (λ bs. filled extra_result (unmarshal_extra_result lib slices z bs))
  unmarshaler (pointer task_info z) =
      some (λ bs. filled task_info (unmarshal_task_info lib slices z bs))
  unmarshaler (pointer task_result z) =
      some (λ bs. filled task_result (unmarshal_task_result lib slices z bs))
  unmarshaler (pointer request_payload z) =
      some (λ bs. filled request_payload (unmarshal_request_payload lib slices z bs))
  unmarshaler (pointer response_payload z) =
      some (λ bs. filled response_payload (unmarshal_response_payload lib slices z bs))
  unmarshaler (pointer ipc_req_message z) =
      some (λ bs. filled ipc_req_message (unmarshal_ipc_req_message lib slices z bs))
  unmarshaler (pointer ipc_resp_message z) =
      some (λ bs. filled ipc_resp_message (unmarshal_ipc_resp_message lib slices z bs))
  unmarshaler (pointer other z) = none

  -- The codec, where `target` is what the caller passes to `Unmarshal`.
  unfoldable pub msgpack_codec : Any → Codec Any
  unfolding marshaler unmarshaler
  msgpack_codec target = record {
    name = "msgp";
    marshal = λ v. elim (marshaler v) [
      | none ↦ fail (text "type does not implement msgp.Marshaler interface")
      | some method ↦ wrap "msgp marshal failed" (method [])
    ];
    unmarshal = λ bs. elim (unmarshaler target) [
      | none ↦ fail (text "type does not implement msgp.Unmarshaler interface")
      | some method ↦ wrap "msgp unmarshal failed" (method bs)
    ];
  }
