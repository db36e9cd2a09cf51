-- ===== src/Shared/Sizes.antt =====
-- `Msgsize` is an upper bound.
use plugo.Prelude.{ℕ, ◌+◌, ◌≤◌, ◌≡◌, List, arith, ◌++◌, length, length-append}
use plugo.Shared.{
  TaskInfo, RequestPayload, ExtraResult, TaskResult, ResponsePayload, IpcReqMessage, IpcRespMessage,
}
use plugo.Shared.Msgp.{Msgp, SizesBound}
use plugo.Io.{Result, ok}
use plugo.Shared.Encode.{
  marshal_extra_result, marshal_task_info, marshal_task_result, marshal_request_payload,
  marshal_response_payload, marshal_ipc_req_message, marshal_ipc_resp_message, msgsize_extra_result,
  msgsize_task_info, msgsize_task_result, msgsize_request_payload, msgsize_response_payload,
  msgsize_ipc_req_message, msgsize_ipc_resp_message,
}
use plugo.Shared.Layout.{
  extra_result_bytes, task_info_bytes, task_result_bytes, request_payload_bytes,
  response_payload_bytes, ipc_req_bytes, ipc_resp_bytes, marshal_extra_result_lem,
  marshal_task_info_lem, marshal_task_result_lem, marshal_request_payload_lem,
  marshal_response_payload_lem, marshal_ipc_req_lem, marshal_ipc_resp_lem,
}

length-append_bytes : (xs ys : List ℕ) → length (xs ++ ys) ≡ length xs + length ys
length-append_bytes = length-append

-- The result is the slice with at most so many bytes behind it.
abbrev pub Appends : Result (List ℕ) → List ℕ → ℕ → Type 0
Appends r b n = (bs : List ℕ) × (r ≡ ok (b ++ bs)) × (length bs ≤ n)

module _ (lib : Msgp) (bound : SizesBound lib) where
  extra_result_size :
      (z : ExtraResult) → length (extra_result_bytes lib z) ≤ msgsize_extra_result lib z
  unfolding msgsize_extra_result
  extra_result_size z =
      omega (arith, length-append_bytes, bound.string_bound z.node_id, bound.string_bound z.status)

  task_info_size : (z : TaskInfo) → length (task_info_bytes lib z) ≤ msgsize_task_info lib z
  unfolding msgsize_task_info
  task_info_size z =
      omega (arith, length-append_bytes, bound.int_bound z.step, bound.string_bound z.options)

  task_result_size : (z : TaskResult) → length (task_result_bytes lib z) ≤ msgsize_task_result lib z
  unfolding msgsize_task_result
  task_result_size z = omega (
    arith,
    length-append_bytes,
    bound.string_bound z.message,
    bound.string_bound z.extra.node_id,
    bound.string_bound z.extra.status,
  )

  request_payload_size :
      (z : RequestPayload) → length (request_payload_bytes lib z) ≤ msgsize_request_payload lib z
  unfolding msgsize_request_payload
  request_payload_size z = omega (
    arith,
    length-append_bytes,
    bound.string_bound z.task_name,
    bound.int_bound z.task_detail.step,
    bound.string_bound z.task_detail.options,
  )

  response_payload_size :
      (z : ResponsePayload) → length (response_payload_bytes lib z) ≤ msgsize_response_payload lib z
  unfolding msgsize_response_payload
  response_payload_size z = omega (
    arith,
    length-append_bytes,
    bound.int_bound z.code,
    bound.string_bound z.result.message,
    bound.string_bound z.result.extra.node_id,
    bound.string_bound z.result.extra.status,
  )

  ipc_req_size : (z : IpcReqMessage) → length (ipc_req_bytes lib z) ≤ msgsize_ipc_req_message lib z
  unfolding msgsize_ipc_req_message
  ipc_req_size z = omega (
    arith,
    length-append_bytes,
    bound.uint32_bound z.id,
    bound.string_bound z.command,
    request_payload_size z.payload,
  )

  ipc_resp_size :
      (z : IpcRespMessage) → length (ipc_resp_bytes lib z) ≤ msgsize_ipc_resp_message lib z
  unfolding msgsize_ipc_resp_message
  ipc_resp_size z = omega (
    arith,
    length-append_bytes,
    bound.uint32_bound z.id,
    bound.string_bound z.command,
    response_payload_size z.payload,
  )

  -- `MarshalMsg` of each of the seven messages appends, to any slice, no more bytes than the message's
  -- `Msgsize` reserved, if the library's constants bound what its functions append.
  pub marshal-le-msgsize :
      (e : ExtraResult) (i : TaskInfo) (t : TaskResult) (q : RequestPayload) (p : ResponsePayload)
      (req : IpcReqMessage) (resp : IpcRespMessage) (b : List ℕ)
      → Appends (marshal_extra_result lib e b) b (msgsize_extra_result lib e)
        × Appends (marshal_task_info lib i b) b (msgsize_task_info lib i)
        × Appends (marshal_task_result lib t b) b (msgsize_task_result lib t)
        × Appends (marshal_request_payload lib q b) b (msgsize_request_payload lib q)
        × Appends (marshal_response_payload lib p b) b (msgsize_response_payload lib p)
        × Appends (marshal_ipc_req_message lib req b) b (msgsize_ipc_req_message lib req)
        × Appends (marshal_ipc_resp_message lib resp b) b (msgsize_ipc_resp_message lib resp)
  marshal-le-msgsize e i t q p req resp b = (
    (_, marshal_extra_result_lem lib e b, extra_result_size e),
    (_, marshal_task_info_lem lib i b, task_info_size i),
    (_, marshal_task_result_lem lib t b, task_result_size t),
    (_, marshal_request_payload_lem lib q b, request_payload_size q),
    (_, marshal_response_payload_lem lib p b, response_payload_size p),
    (_, marshal_ipc_req_lem lib req b, ipc_req_size req),
    (_, marshal_ipc_resp_lem lib resp b, ipc_resp_size resp),
  )
