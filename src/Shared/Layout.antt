-- ===== src/Shared/Layout.antt =====
-- The bytes of each message, as one list: what the three ways of message_gen.go agree on.
use plugo.Prelude.{ℕ, ◌≡◌, ap, List, ◌++◌, append_assoc, bytes_of}
use plugo.Io.{ok}
use plugo.Shared.{
  TaskInfo, RequestPayload, ExtraResult, TaskResult, ResponsePayload, IpcReqMessage, IpcRespMessage,
}
use plugo.Shared.Msgp.{Msgp, map_head, key}
use plugo.Shared.Encode.{
  marshal_extra_result, marshal_task_info, marshal_task_result, marshal_request_payload,
  marshal_response_payload, marshal_ipc_req_message, marshal_ipc_resp_message,
}

module _ (lib : Msgp) where
  open lib use {append_string, append_int, append_uint32}

  abbrev pub extra_result_bytes : ExtraResult → List ℕ
  extra_result_bytes z =
      map_head 2
      ++ (key (bytes_of "node_id")
          ++ (append_string z.node_id ++ (key (bytes_of "status") ++ append_string z.status)))

  abbrev pub task_info_bytes : TaskInfo → List ℕ
  task_info_bytes z =
      map_head 2
      ++ (key (bytes_of "step")
          ++ (append_int z.step ++ (key (bytes_of "options") ++ append_string z.options)))

  abbrev pub task_result_bytes : TaskResult → List ℕ
  task_result_bytes z =
      map_head 2
      ++ (key (bytes_of "message")
          ++ (append_string z.message ++ (key (bytes_of "extra") ++ extra_result_bytes z.extra)))

  abbrev pub request_payload_bytes : RequestPayload → List ℕ
  request_payload_bytes z =
      map_head 2
      ++ (key (bytes_of "task_name")
          ++ (append_string z.task_name
              ++ (key (bytes_of "task_detail") ++ task_info_bytes z.task_detail)))

  abbrev pub response_payload_bytes : ResponsePayload → List ℕ
  response_payload_bytes z =
      map_head 2
      ++ (key (bytes_of "code")
          ++ (append_int z.code ++ (key (bytes_of "result") ++ task_result_bytes z.result)))

  abbrev pub ipc_req_fields : IpcReqMessage → List ℕ
  ipc_req_fields z =
      key (bytes_of "id")
      ++ (append_uint32 z.id
          ++ (key (bytes_of "command")
              ++ (append_string z.command
                  ++ (key (bytes_of "payload") ++ request_payload_bytes z.payload))))

  abbrev pub ipc_req_bytes : IpcReqMessage → List ℕ
  ipc_req_bytes z = map_head 3 ++ ipc_req_fields z

  abbrev pub ipc_resp_fields : IpcRespMessage → List ℕ
  ipc_resp_fields z =
      key (bytes_of "id")
      ++ (append_uint32 z.id
          ++ (key (bytes_of "command")
              ++ (append_string z.command
                  ++ (key (bytes_of "payload") ++ response_payload_bytes z.payload))))

  abbrev pub ipc_resp_bytes : IpcRespMessage → List ℕ
  ipc_resp_bytes z = map_head 3 ++ ipc_resp_fields z

  pub marshal_extra_result_lem :
      (z : ExtraResult) (b : List ℕ) → marshal_extra_result lib z b ≡ ok (b ++ extra_result_bytes z)
  unfolding marshal_extra_result
  marshal_extra_result_lem z b = ap ok (simp append_assoc)

  pub marshal_task_info_lem :
      (z : TaskInfo) (b : List ℕ) → marshal_task_info lib z b ≡ ok (b ++ task_info_bytes z)
  unfolding marshal_task_info
  marshal_task_info_lem z b = ap ok (simp append_assoc)

  pub marshal_task_result_lem :
      (z : TaskResult) (b : List ℕ) → marshal_task_result lib z b ≡ ok (b ++ task_result_bytes z)
  unfolding marshal_task_result
  marshal_task_result_lem z b = ap ok (simp append_assoc)

  pub marshal_request_payload_lem :
      (z : RequestPayload) (b : List ℕ)
      → marshal_request_payload lib z b ≡ ok (b ++ request_payload_bytes z)
  unfolding marshal_request_payload
  marshal_request_payload_lem z b = ap ok (simp append_assoc)

  pub marshal_response_payload_lem :
      (z : ResponsePayload) (b : List ℕ)
      → marshal_response_payload lib z b ≡ ok (b ++ response_payload_bytes z)
  unfolding marshal_response_payload
  marshal_response_payload_lem z b = ap ok (simp append_assoc)

  pub marshal_ipc_req_lem :
      (z : IpcReqMessage) (b : List ℕ) → marshal_ipc_req_message lib z b ≡ ok (b ++ ipc_req_bytes z)
  unfolding marshal_ipc_req_message
  marshal_ipc_req_lem z b = rw (marshal_request_payload_lem z.payload _) (ap ok (simp append_assoc))

  pub marshal_ipc_resp_lem :
      (z : IpcRespMessage) (b : List ℕ)
      → marshal_ipc_resp_message lib z b ≡ ok (b ++ ipc_resp_bytes z)
  unfolding marshal_ipc_resp_message
  marshal_ipc_resp_lem z b =
      rw (marshal_response_payload_lem z.payload _) (ap ok (simp append_assoc))
