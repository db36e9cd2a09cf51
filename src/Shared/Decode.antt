-- ===== src/Shared/Decode.antt =====
-- message_gen.go: the reading half. `DecodeMsg` on a reader and `UnmarshalMsg` on a slice are the same
-- code over a `Source`. A struct is read into the one that is there: a field that the input lacks keeps
-- its value. What an error leaves half read is dropped, as the callers do.
use plugo.Prelude.{
  ℕ, zero, suc, List, [], ◌∷◌, ◌++◌, String, if◌then◌else◌, ◌==◌, bytes_eq, bytes_of,
}
use plugo.Io.{Result, ok, fail, panics}
use plugo.Shared.{
  TaskInfo, RequestPayload, ExtraResult, TaskResult, ResponsePayload, IpcReqMessage, IpcRespMessage,
}
use plugo.Shared.Msgp.{Msgp, Source}
use plugo.Shared.Encode.{at}

abbrev pub Read : Type 0 → Type 0 → Type 0
Read S A = S → Result (A × S)

abbrev pub then_read : {S A B : Type 0} → Result (A × S) → (A → Read S B) → Result (B × S)
then_read (ok (a, s)) k = k a s
then_read (fail e) k = fail e
then_read panics k = panics

infixl 5 ◌>>=◌
abbrev pub ◌>>=◌ : {S A B : Type 0} → Read S A → (A → Read S B) → Read S B
◌>>=◌ m k s = then_read (m s) k

abbrev pub pure : {S A : Type 0} → A → Read S A
pure a s = ok (a, s)

module _ (lib : Msgp) {S : Type 0} (dc : Source S) where
  open dc use {read_map_header, read_map_key, read_string, read_int, read_uint32, skip}

  -- A read whose error is wrapped with its path.
  abbrev pub read_at : {A : Type 0} → List String → Read S A → Read S A
  read_at path m s = at lib path (m s)

  -- `for n > 0 { n--; … }`: a key, then what the switch does with it.
  unfoldable pub read_fields :
      {A : Type 0} → List String → (List ℕ → A → Read S A) → ℕ → A → Read S A
  read_fields path field zero z = pure z
  read_fields path field (suc n) z = do
    k ← read_at path read_map_key
    z' ← field k z
    read_fields path field n z'

  -- A map into a struct.
  abbrev pub read_map : {A : Type 0} → List String → (List ℕ → A → Read S A) → A → Read S A
  read_map path field z = do n ← read_at path read_map_header; read_fields path field n z

  -- `default: err = dc.Skip()`
  abbrev pub skipped : {A : Type 0} → List String → A → Read S A
  skipped path z = do _ ← read_at path skip; pure z

  unfoldable pub extra_result_field : List String → List ℕ → ExtraResult → Read S ExtraResult
  extra_result_field path k z =
      if k == bytes_of "node_id"
      then (do v ← read_at (path ++ "NodeID" ∷ []) read_string; pure (record z { node_id = v }))
      else if k == bytes_of "status"
      then (do v ← read_at (path ++ "Status" ∷ []) read_string; pure (record z { status = v }))
      else skipped path z

  -- A struct is read under the path of the fields that lead to it, which the generated code writes out
  -- where it reads an inner struct inline.
  unfoldable pub extra_result_at : List String → ExtraResult → Read S ExtraResult
  unfolding read_fields extra_result_field
  extra_result_at path = read_map path (extra_result_field path)

  unfoldable pub task_info_field : List String → List ℕ → TaskInfo → Read S TaskInfo
  task_info_field path k z =
      if k == bytes_of "step"
      then (do v ← read_at (path ++ "Step" ∷ []) read_int; pure (record z { step = v }))
      else if k == bytes_of "options"
      then (do v ← read_at (path ++ "Options" ∷ []) read_string; pure (record z { options = v }))
      else skipped path z

  unfoldable pub task_info_at : List String → TaskInfo → Read S TaskInfo
  unfolding read_fields task_info_field
  task_info_at path = read_map path (task_info_field path)

  unfoldable pub task_result_field : List String → List ℕ → TaskResult → Read S TaskResult
  unfolding extra_result_at
  task_result_field path k z =
      if k == bytes_of "message"
      then (do v ← read_at (path ++ "Message" ∷ []) read_string; pure (record z { message = v }))
      else if k == bytes_of "extra"
      then (do v ← extra_result_at (path ++ "Extra" ∷ []) z.extra; pure (record z { extra = v }))
      else skipped path z

  unfoldable pub task_result_at : List String → TaskResult → Read S TaskResult
  unfolding read_fields task_result_field
  task_result_at path = read_map path (task_result_field path)

  unfoldable pub request_payload_field : List ℕ → RequestPayload → Read S RequestPayload
  unfolding task_info_at
  request_payload_field k z =
      if k == bytes_of "task_name"
      then (do v ← read_at ("TaskName" ∷ []) read_string; pure (record z { task_name = v }))
      else if k == bytes_of "task_detail"
      then (do
        v ← task_info_at ("TaskDetail" ∷ []) z.task_detail
        pure (record z { task_detail = v }))
      else skipped [] z

  unfoldable pub response_payload_field : List ℕ → ResponsePayload → Read S ResponsePayload
  unfolding task_result_at
  response_payload_field k z =
      if k == bytes_of "code"
      then (do v ← read_at ("Code" ∷ []) read_int; pure (record z { code = v }))
      else if k == bytes_of "result"
      then (do v ← task_result_at ("Result" ∷ []) z.result; pure (record z { result = v }))
      else skipped [] z

  unfoldable pub decode_extra_result : ExtraResult → Read S ExtraResult
  unfolding extra_result_at
  decode_extra_result = extra_result_at []

  unfoldable pub decode_task_info : TaskInfo → Read S TaskInfo
  unfolding task_info_at
  decode_task_info = task_info_at []

  unfoldable pub decode_task_result : TaskResult → Read S TaskResult
  unfolding task_result_at
  decode_task_result = task_result_at []

  unfoldable pub decode_request_payload : RequestPayload → Read S RequestPayload
  unfolding read_fields request_payload_field
  decode_request_payload = read_map [] request_payload_field

  unfoldable pub decode_response_payload : ResponsePayload → Read S ResponsePayload
  unfolding read_fields response_payload_field
  decode_response_payload = read_map [] response_payload_field

  unfoldable pub ipc_req_field : List ℕ → IpcReqMessage → Read S IpcReqMessage
  unfolding decode_request_payload
  ipc_req_field k z =
      if k == bytes_of "id"
      then (do v ← read_at ("ID" ∷ []) read_uint32; pure (record z { id = v }))
      else if k == bytes_of "command"
      then (do v ← read_at ("Command" ∷ []) read_string; pure (record z { command = v }))
      else if k == bytes_of "payload"
      then (do
        v ← read_at ("Payload" ∷ []) (decode_request_payload z.payload)
        pure (record z { payload = v }))
      else skipped [] z

  unfoldable pub decode_ipc_req_message : IpcReqMessage → Read S IpcReqMessage
  unfolding read_fields ipc_req_field
  decode_ipc_req_message = read_map [] ipc_req_field

  unfoldable pub ipc_resp_field : List ℕ → IpcRespMessage → Read S IpcRespMessage
  unfolding decode_response_payload
  ipc_resp_field k z =
      if k == bytes_of "id"
      then (do v ← read_at ("ID" ∷ []) read_uint32; pure (record z { id = v }))
      else if k == bytes_of "command"
      then (do v ← read_at ("Command" ∷ []) read_string; pure (record z { command = v }))
      else if k == bytes_of "payload"
      then (do
        v ← read_at ("Payload" ∷ []) (decode_response_payload z.payload)
        pure (record z { payload = v }))
      else skipped [] z

  unfoldable pub decode_ipc_resp_message : IpcRespMessage → Read S IpcRespMessage
  unfolding read_fields ipc_resp_field
  decode_ipc_resp_message = read_map [] ipc_resp_field
