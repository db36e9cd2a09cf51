-- ===== src/Shared/Reading.antt =====
-- Each reading function takes the bytes of its message off the input.
use plugo.Prelude.{
  ℕ, suc, ◌<◌, refl, ◌∙◌, arith, List, [], ◌++◌, String, append_assoc, length, bytes_of, bytes_eq,
}
use plugo.Shared.{
  TaskInfo, RequestPayload, ExtraResult, TaskResult, ResponsePayload, IpcReqMessage, IpcRespMessage,
}
use plugo.Shared.Small.{
  IsSmallExtra, IsSmallInfo, IsSmallResult, IsSmallRequest, IsSmallResponse, IsSmallReqMessage,
  IsSmallRespMessage,
}
use plugo.Shared.Msgp.{Msgp, Source, Reads, ReadsBack, key}
use plugo.Shared.Decode.{
  ◌>>=◌, pure, Read, read_at, read_fields, extra_result_field, extra_result_at, task_info_field,
  task_info_at, task_result_field, task_result_at, request_payload_field, response_payload_field,
  decode_request_payload, decode_response_payload, ipc_req_field, ipc_resp_field,
  decode_ipc_req_message, decode_ipc_resp_message,
}
use plugo.Shared.Layout.{
  extra_result_bytes, task_info_bytes, task_result_bytes, request_payload_bytes,
  response_payload_bytes, ipc_req_bytes, ipc_resp_bytes, ipc_req_fields, ipc_resp_fields,
}

module _ {S : Type 0} {rest : S → List ℕ} where
  pub chain :
      {A B : Type 0} {m : Read S A} (k : A → Read S B) {a : A} {b : B} {bs cs : List ℕ}
      → Reads rest m a bs
      → Reads rest (k a) b cs
      → Reads rest (m >>= k) b (bs ++ cs)
  chain k {bs} {cs} p q = record {
    read = λ s after e.
        let (s₁, d, h) = p.read s (cs ++ after) (e ∙ append_assoc bs cs after) in
        let (s₂, d', h') = q.read s₁ after h in (s₂, rw d d', h');
  }

  done : {A : Type 0} (a : A) → Reads rest (pure a) a []
  done a = record { read = λ s after e. (s, refl, e) }

  pub last :
      {A B : Type 0} {m : Read S A} (f : A → B) {a : A} {bs : List ℕ}
      → Reads rest m a bs
      → Reads rest (m >>= λ v. pure (f v)) (f a) bs
  last f p = record { read = λ s after e. let (s₁, d, h) = p.read s after e in (s₁, rw d refl, h) }

module _ (lib : Msgp) {S : Type 0} {dc : Source S} {rest : S → List ℕ}
    (laws : ReadsBack lib dc rest) where
  open laws use {reads_map_header, reads_map_key, reads_string, reads_int, reads_uint32}

  pub at_path :
      {A : Type 0} {m : Read S A} {a : A} {bs : List ℕ} (path : List String)
      → Reads rest m a bs
      → Reads rest (read_at lib dc path m) a bs
  at_path path p = record {
    read = λ s after e. let (s₁, d, h) = p.read s after e in (s₁, rw d refl, h);
  }

  -- One round of the loop over a map's fields, and its last one.
  pub next_field :
      {A : Type 0} (path : List String) (field : List ℕ → A → Read S A) (n : ℕ) (k : List ℕ)
      {z z' z'' : A} {bs cs : List ℕ}
      → length k < 32
      → Reads rest (field k z) z' bs
      → Reads rest (read_fields lib dc path field n z') z'' cs
      → Reads rest (read_fields lib dc path field (suc n) z) z'' (key k ++ (bs ++ cs))
  unfolding read_fields
  next_field path field n k h p q = chain _ (at_path path (reads_map_key k h)) (chain _ p q)

  last_field :
      {A : Type 0} (path : List String) (field : List ℕ → A → Read S A) (k : List ℕ) {z z' : A}
      {bs : List ℕ}
      → length k < 32
      → Reads rest (field k z) z' bs
      → Reads rest (read_fields lib dc path field 1 z) z' (key k ++ bs)
  unfolding read_fields
  last_field path field k h p = chain _ (at_path path (reads_map_key k h)) (last (λ v. v) p)

  pub extra_result-Reads :
      (path : List String) (z₀ z : ExtraResult)
      → IsSmallExtra z
      → Reads rest (extra_result_at lib dc path z₀) z (extra_result_bytes lib z)
  unfolding extra_result_at
  extra_result-Reads path z₀ z h = chain _ (at_path path (reads_map_header 2 (omega arith))) (
      next_field path (extra_result_field lib dc path) 1 (bytes_of "node_id") (omega arith)
        (last _ (at_path _ (reads_string z.node_id h.node_id_fits)))
        (last_field path (extra_result_field lib dc path) (bytes_of "status") (omega arith)
          (last _ (at_path _ (reads_string z.status h.status_fits)))))

  pub task_info-Reads :
      (path : List String) (z₀ z : TaskInfo)
      → IsSmallInfo z
      → Reads rest (task_info_at lib dc path z₀) z (task_info_bytes lib z)
  unfolding task_info_at
  task_info-Reads path z₀ z h = chain _ (at_path path (reads_map_header 2 (omega arith))) (
      next_field path (task_info_field lib dc path) 1 (bytes_of "step") (omega arith)
        (last _ (at_path _ (reads_int z.step h.step_fits)))
        (last_field path (task_info_field lib dc path) (bytes_of "options") (omega arith)
          (last _ (at_path _ (reads_string z.options h.options_fit)))))

  pub task_result-Reads :
      (path : List String) (z₀ z : TaskResult)
      → IsSmallResult z
      → Reads rest (task_result_at lib dc path z₀) z (task_result_bytes lib z)
  unfolding task_result_at
  task_result-Reads path z₀ z h = chain _ (at_path path (reads_map_header 2 (omega arith))) (
      next_field path (task_result_field lib dc path) 1 (bytes_of "message") (omega arith)
        (last _ (at_path _ (reads_string z.message h.message_fits)))
        (last_field path (task_result_field lib dc path) (bytes_of "extra") (omega arith)
          (last _ (extra_result-Reads _ z₀.extra z.extra h.small_extra))))

  pub request_payload-Reads :
      (z₀ z : RequestPayload)
      → IsSmallRequest z
      → Reads rest (decode_request_payload lib dc z₀) z (request_payload_bytes lib z)
  unfolding decode_request_payload
  request_payload-Reads z₀ z h = chain _ (at_path [] (reads_map_header 2 (omega arith))) (
      next_field [] (λ k y. request_payload_field lib dc k y) 1 (bytes_of "task_name") (omega arith)
        (last _ (at_path _ (reads_string z.task_name h.task_name_fits)))
        (last_field [] (λ k y. request_payload_field lib dc k y) (bytes_of "task_detail")
          (omega arith) (last _ (task_info-Reads _ z₀.task_detail z.task_detail h.small_detail))))

  pub response_payload-Reads :
      (z₀ z : ResponsePayload)
      → IsSmallResponse z
      → Reads rest (decode_response_payload lib dc z₀) z (response_payload_bytes lib z)
  unfolding decode_response_payload
  response_payload-Reads z₀ z h = chain _ (at_path [] (reads_map_header 2 (omega arith))) (
      next_field [] (λ k y. response_payload_field lib dc k y) 1 (bytes_of "code") (omega arith)
        (last _ (at_path _ (reads_int z.code h.code_fits)))
        (last_field [] (λ k y. response_payload_field lib dc k y) (bytes_of "result") (omega arith)
          (last _ (task_result-Reads _ z₀.result z.result h.small_result))))

  pub ipc_req_fields_read :
      (z₀ z : IpcReqMessage)
      → IsSmallReqMessage z
      → Reads rest (read_fields lib dc [] (ipc_req_field lib dc) 3 z₀) z (ipc_req_fields lib z)
  unfolding ipc_req_field
  ipc_req_fields_read z₀ z h =
      next_field [] (ipc_req_field lib dc) 2 (bytes_of "id") (omega arith)
        (last _ (at_path _ (reads_uint32 z.id h.id_fits)))
        (next_field [] (ipc_req_field lib dc) 1 (bytes_of "command") (omega arith)
          (last _ (at_path _ (reads_string z.command h.command_fits)))
          (last_field [] (ipc_req_field lib dc) (bytes_of "payload") (omega arith)
            (last _ (at_path _ (request_payload-Reads z₀.payload z.payload h.small_payload)))))

  pub ipc_req-Reads :
      (z₀ z : IpcReqMessage)
      → IsSmallReqMessage z
      → Reads rest (decode_ipc_req_message lib dc z₀) z (ipc_req_bytes lib z)
  unfolding decode_ipc_req_message
  ipc_req-Reads z₀ z h =
      chain _ (at_path [] (reads_map_header 3 (omega arith))) (ipc_req_fields_read z₀ z h)

  pub ipc_resp_fields_read :
      (z₀ z : IpcRespMessage)
      → IsSmallRespMessage z
      → Reads rest (read_fields lib dc [] (ipc_resp_field lib dc) 3 z₀) z (ipc_resp_fields lib z)
  unfolding ipc_resp_field
  ipc_resp_fields_read z₀ z h =
      next_field [] (ipc_resp_field lib dc) 2 (bytes_of "id") (omega arith)
        (last _ (at_path _ (reads_uint32 z.id h.id_fits)))
        (next_field [] (ipc_resp_field lib dc) 1 (bytes_of "command") (omega arith)
          (last _ (at_path _ (reads_string z.command h.command_fits)))
          (last_field [] (ipc_resp_field lib dc) (bytes_of "payload") (omega arith)
            (last _ (at_path _ (response_payload-Reads z₀.payload z.payload h.small_payload)))))

  pub ipc_resp-Reads :
      (z₀ z : IpcRespMessage)
      → IsSmallRespMessage z
      → Reads rest (decode_ipc_resp_message lib dc z₀) z (ipc_resp_bytes lib z)
  unfolding decode_ipc_resp_message
  ipc_resp-Reads z₀ z h =
      chain _ (at_path [] (reads_map_header 3 (omega arith))) (ipc_resp_fields_read z₀ z h)
