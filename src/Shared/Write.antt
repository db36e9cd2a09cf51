-- ===== src/Shared/Write.antt =====
-- message_gen.go: `EncodeMsg`, on a writer. Each write is followed by a return if it failed.
use plugo.Prelude.{List, [], ◌∷◌, String, bytes_of}
use plugo.Io.{Result, ok, fail, panics}
use plugo.Shared.{
  TaskInfo, RequestPayload, ExtraResult, TaskResult, ResponsePayload, IpcReqMessage, IpcRespMessage,
}
use plugo.Shared.Msgp.{Msgp, Sink}
use plugo.Shared.Encode.{at}

abbrev pub followed : {W : Type 0} → Result W → (W → Result W) → Result W
followed (ok w) g = g w
followed (fail e) g = fail e
followed panics g = panics

-- One write, then the rest of the function.
infixl 5 ◌>>◌
abbrev pub ◌>>◌ : {W : Type 0} → (W → Result W) → (W → Result W) → W → Result W
◌>>◌ f g w = followed (f w) g

module _ (lib : Msgp) {W : Type 0} (en : Sink W) where
  open en use {append, write_string, write_int, write_uint32}

  -- A write of a value, whose error is wrapped with its path.
  abbrev pub write_at : List String → (W → Result W) → W → Result W
  write_at path f w = at lib path (f w)

  unfoldable pub encode_extra_result : ExtraResult → W → Result W
  encode_extra_result z =
      append (0x82 ∷ 0xa7 ∷ bytes_of "node_id")
      >> write_at ("NodeID" ∷ []) (write_string z.node_id)
      >> append (0xa6 ∷ bytes_of "status")
      >> write_at ("Status" ∷ []) (write_string z.status)

  unfoldable pub encode_task_info : TaskInfo → W → Result W
  encode_task_info z =
      append (0x82 ∷ 0xa4 ∷ bytes_of "step")
      >> write_at ("Step" ∷ []) (write_int z.step)
      >> append (0xa7 ∷ bytes_of "options")
      >> write_at ("Options" ∷ []) (write_string z.options)

  unfoldable pub encode_task_result : TaskResult → W → Result W
  encode_task_result z =
      append (0x82 ∷ 0xa7 ∷ bytes_of "message")
      >> write_at ("Message" ∷ []) (write_string z.message)
      >> append (0xa5 ∷ bytes_of "extra")
      >> append (0x82 ∷ 0xa7 ∷ bytes_of "node_id")
      >> write_at ("Extra" ∷ "NodeID" ∷ []) (write_string z.extra.node_id)
      >> append (0xa6 ∷ bytes_of "status")
      >> write_at ("Extra" ∷ "Status" ∷ []) (write_string z.extra.status)

  unfoldable pub encode_request_payload : RequestPayload → W → Result W
  encode_request_payload z =
      append (0x82 ∷ 0xa9 ∷ bytes_of "task_name")
      >> write_at ("TaskName" ∷ []) (write_string z.task_name)
      >> append (0xab ∷ bytes_of "task_detail")
      >> append (0x82 ∷ 0xa4 ∷ bytes_of "step")
      >> write_at ("TaskDetail" ∷ "Step" ∷ []) (write_int z.task_detail.step)
      >> append (0xa7 ∷ bytes_of "options")
      >> write_at ("TaskDetail" ∷ "Options" ∷ []) (write_string z.task_detail.options)

  unfoldable pub encode_response_payload : ResponsePayload → W → Result W
  encode_response_payload z =
      append (0x82 ∷ 0xa4 ∷ bytes_of "code")
      >> write_at ("Code" ∷ []) (write_int z.code)
      >> append (0xa6 ∷ bytes_of "result")
      >> append (0x82 ∷ 0xa7 ∷ bytes_of "message")
      >> write_at ("Result" ∷ "Message" ∷ []) (write_string z.result.message)
      >> append (0xa5 ∷ bytes_of "extra")
      >> append (0x82 ∷ 0xa7 ∷ bytes_of "node_id")
      >> write_at ("Result" ∷ "Extra" ∷ "NodeID" ∷ []) (write_string z.result.extra.node_id)
      >> append (0xa6 ∷ bytes_of "status")
      >> write_at ("Result" ∷ "Extra" ∷ "Status" ∷ []) (write_string z.result.extra.status)

  unfoldable pub encode_ipc_req_message : IpcReqMessage → W → Result W
  unfolding encode_request_payload
  encode_ipc_req_message z =
      append (0x83 ∷ 0xa2 ∷ bytes_of "id")
      >> write_at ("ID" ∷ []) (write_uint32 z.id)
      >> append (0xa7 ∷ bytes_of "command")
      >> write_at ("Command" ∷ []) (write_string z.command)
      >> append (0xa7 ∷ bytes_of "payload")
      >> write_at ("Payload" ∷ []) (encode_request_payload z.payload)

  unfoldable pub encode_ipc_resp_message : IpcRespMessage → W → Result W
  unfolding encode_response_payload
  encode_ipc_resp_message z =
      append (0x83 ∷ 0xa2 ∷ bytes_of "id")
      >> write_at ("ID" ∷ []) (write_uint32 z.id)
      >> append (0xa7 ∷ bytes_of "command")
      >> write_at ("Command" ∷ []) (write_string z.command)
      >> append (0xa7 ∷ bytes_of "payload")
      >> write_at ("Payload" ∷ []) (encode_response_payload z.payload)
