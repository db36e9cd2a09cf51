-- ===== src/Shared/Unmarshal.antt =====
-- message_gen.go: `UnmarshalMsg`, which has the statements of `DecodeMsg` on the bytes that are left in
-- place of a reader.
use plugo.Prelude.{ℕ, List}
use plugo.Shared.{
  TaskInfo, RequestPayload, ExtraResult, TaskResult, ResponsePayload, IpcReqMessage, IpcRespMessage,
}
use plugo.Shared.Msgp.{Msgp, Source}
use plugo.Shared.Decode.{
  Read, decode_extra_result, decode_task_info, decode_task_result, decode_request_payload,
  decode_response_payload, decode_ipc_req_message, decode_ipc_resp_message,
}

module _ (lib : Msgp) (slices : Source (List ℕ)) where
  unfoldable pub unmarshal_extra_result : ExtraResult → Read (List ℕ) ExtraResult
  unfolding decode_extra_result
  unmarshal_extra_result = decode_extra_result lib slices

  unfoldable pub unmarshal_task_info : TaskInfo → Read (List ℕ) TaskInfo
  unfolding decode_task_info
  unmarshal_task_info = decode_task_info lib slices

  unfoldable pub unmarshal_task_result : TaskResult → Read (List ℕ) TaskResult
  unfolding decode_task_result
  unmarshal_task_result = decode_task_result lib slices

  unfoldable pub unmarshal_request_payload : RequestPayload → Read (List ℕ) RequestPayload
  unfolding decode_request_payload
  unmarshal_request_payload = decode_request_payload lib slices

  unfoldable pub unmarshal_response_payload : ResponsePayload → Read (List ℕ) ResponsePayload
  unfolding decode_response_payload
  unmarshal_response_payload = decode_response_payload lib slices

  unfoldable pub unmarshal_ipc_req_message : IpcReqMessage → Read (List ℕ) IpcReqMessage
  unfolding decode_ipc_req_message
  unmarshal_ipc_req_message = decode_ipc_req_message lib slices

  unfoldable pub unmarshal_ipc_resp_message : IpcRespMessage → Read (List ℕ) IpcRespMessage
  unfolding decode_ipc_resp_message
  unmarshal_ipc_resp_message = decode_ipc_resp_message lib slices
