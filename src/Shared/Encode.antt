-- ===== src/Shared/Encode.antt =====
-- message_gen.go: `MarshalMsg`, which appends to a slice, `EncodeMsg`, which writes to a writer, and
-- `Msgsize`. Text keys are written with the byte in front that MessagePack gives a short string.
use plugo.Prelude.{ℕ, ◌+◌, List, [], ◌∷◌, ◌++◌, String, length, bytes_of}
use plugo.Io.{Result, ok, fail, panics}
use plugo.Shared.{
  TaskInfo, RequestPayload, ExtraResult, TaskResult, ResponsePayload, IpcReqMessage, IpcRespMessage,
}
use plugo.Shared.Msgp.{Msgp}

module _ (lib : Msgp) where
  open lib use {
    append_string, append_int, append_uint32, string_prefix_size, int_size, uint32_size, wrap_error,
  }

  unfoldable pub marshal_extra_result : ExtraResult → List ℕ → Result (List ℕ)
  marshal_extra_result z b =
      let o₁ = b ++ 0x82 ∷ 0xa7 ∷ bytes_of "node_id" in
      let o₂ = o₁ ++ append_string z.node_id in
      let o₃ = o₂ ++ 0xa6 ∷ bytes_of "status" in ok (o₃ ++ append_string z.status)

  unfoldable pub marshal_task_info : TaskInfo → List ℕ → Result (List ℕ)
  marshal_task_info z b =
      let o₁ = b ++ 0x82 ∷ 0xa4 ∷ bytes_of "step" in
      let o₂ = o₁ ++ append_int z.step in
      let o₃ = o₂ ++ 0xa7 ∷ bytes_of "options" in ok (o₃ ++ append_string z.options)

  -- The generated code writes the inner struct inline.
  unfoldable pub marshal_task_result : TaskResult → List ℕ → Result (List ℕ)
  marshal_task_result z b =
      let o₁ = b ++ 0x82 ∷ 0xa7 ∷ bytes_of "message" in
      let o₂ = o₁ ++ append_string z.message in
      let o₃ = o₂ ++ 0xa5 ∷ bytes_of "extra" in
      let o₄ = o₃ ++ 0x82 ∷ 0xa7 ∷ bytes_of "node_id" in
      let o₅ = o₄ ++ append_string z.extra.node_id in
      let o₆ = o₅ ++ 0xa6 ∷ bytes_of "status" in ok (o₆ ++ append_string z.extra.status)

  unfoldable pub marshal_request_payload : RequestPayload → List ℕ → Result (List ℕ)
  marshal_request_payload z b =
      let o₁ = b ++ 0x82 ∷ 0xa9 ∷ bytes_of "task_name" in
      let o₂ = o₁ ++ append_string z.task_name in
      let o₃ = o₂ ++ 0xab ∷ bytes_of "task_detail" in
      let o₄ = o₃ ++ 0x82 ∷ 0xa4 ∷ bytes_of "step" in
      let o₅ = o₄ ++ append_int z.task_detail.step in
      let o₆ = o₅ ++ 0xa7 ∷ bytes_of "options" in ok (o₆ ++ append_string z.task_detail.options)

  unfoldable pub marshal_response_payload : ResponsePayload → List ℕ → Result (List ℕ)
  marshal_response_payload z b =
      let o₁ = b ++ 0x82 ∷ 0xa4 ∷ bytes_of "code" in
      let o₂ = o₁ ++ append_int z.code in
      let o₃ = o₂ ++ 0xa6 ∷ bytes_of "result" in
      let o₄ = o₃ ++ 0x82 ∷ 0xa7 ∷ bytes_of "message" in
      let o₅ = o₄ ++ append_string z.result.message in
      let o₆ = o₅ ++ 0xa5 ∷ bytes_of "extra" in
      let o₇ = o₆ ++ 0x82 ∷ 0xa7 ∷ bytes_of "node_id" in
      let o₈ = o₇ ++ append_string z.result.extra.node_id in
      let o₉ = o₈ ++ 0xa6 ∷ bytes_of "status" in ok (o₉ ++ append_string z.result.extra.status)

  -- `if err != nil { err = msgp.WrapError(err, …) }`
  abbrev pub at {ℓ} : {A : Type ℓ} → List String → Result A → Result A
  at path (ok a) = ok a
  at path (fail e) = fail (wrap_error e path)
  at path panics = panics

  unfoldable pub marshal_ipc_req_message : IpcReqMessage → List ℕ → Result (List ℕ)
  unfolding marshal_request_payload
  marshal_ipc_req_message z b =
      let o₁ = b ++ 0x83 ∷ 0xa2 ∷ bytes_of "id" in
      let o₂ = o₁ ++ append_uint32 z.id in
      let o₃ = o₂ ++ 0xa7 ∷ bytes_of "command" in
      let o₄ = o₃ ++ append_string z.command in
      let o₅ = o₄ ++ 0xa7 ∷ bytes_of "payload" in
      at ("Payload" ∷ []) (marshal_request_payload z.payload o₅)

  unfoldable pub marshal_ipc_resp_message : IpcRespMessage → List ℕ → Result (List ℕ)
  unfolding marshal_response_payload
  marshal_ipc_resp_message z b =
      let o₁ = b ++ 0x83 ∷ 0xa2 ∷ bytes_of "id" in
      let o₂ = o₁ ++ append_uint32 z.id in
      let o₃ = o₂ ++ 0xa7 ∷ bytes_of "command" in
      let o₄ = o₃ ++ append_string z.command in
      let o₅ = o₄ ++ 0xa7 ∷ bytes_of "payload" in
      at ("Payload" ∷ []) (marshal_response_payload z.payload o₅)

  unfoldable pub msgsize_extra_result : ExtraResult → ℕ
  msgsize_extra_result z =
      1 + 8 + string_prefix_size + length z.node_id + 7 + string_prefix_size + length z.status

  unfoldable pub msgsize_task_info : TaskInfo → ℕ
  msgsize_task_info z = 1 + 5 + int_size + 8 + string_prefix_size + length z.options

  unfoldable pub msgsize_task_result : TaskResult → ℕ
  msgsize_task_result z =
      1
      + 8
      + string_prefix_size
      + length z.message
      + 6
      + 1
      + 8
      + string_prefix_size
      + length z.extra.node_id
      + 7
      + string_prefix_size
      + length z.extra.status

  unfoldable pub msgsize_request_payload : RequestPayload → ℕ
  msgsize_request_payload z =
      1
      + 10
      + string_prefix_size
      + length z.task_name
      + 12
      + 1
      + 5
      + int_size
      + 8
      + string_prefix_size
      + length z.task_detail.options

  unfoldable pub msgsize_response_payload : ResponsePayload → ℕ
  msgsize_response_payload z =
      1
      + 5
      + int_size
      + 7
      + 1
      + 8
      + string_prefix_size
      + length z.result.message
      + 6
      + 1
      + 8
      + string_prefix_size
      + length z.result.extra.node_id
      + 7
      + string_prefix_size
      + length z.result.extra.status

  unfoldable pub msgsize_ipc_req_message : IpcReqMessage → ℕ
  unfolding msgsize_request_payload
  msgsize_ipc_req_message z =
      1
      + 3
      + uint32_size
      + 8
      + string_prefix_size
      + length z.command
      + 8
      + msgsize_request_payload z.payload

  unfoldable pub msgsize_ipc_resp_message : IpcRespMessage → ℕ
  unfolding msgsize_response_payload
  msgsize_ipc_resp_message z =
      1
      + 3
      + uint32_size
      + 8
      + string_prefix_size
      + length z.command
      + 8
      + msgsize_response_payload z.payload
