-- ===== src/Shared/WriteAlike.antt =====
-- `EncodeMsg` on a writer that does not fail, and `MarshalMsg`.
use plugo.Prelude.{ℕ, ◌≡◌, refl, ap, sym, ◌∙◌, subst, List, ◌++◌, String, append_assoc}
use plugo.Io.{Result, ok}
use plugo.Shared.{
  TaskInfo, RequestPayload, ExtraResult, TaskResult, ResponsePayload, IpcReqMessage, IpcRespMessage,
}
use plugo.Shared.Msgp.{Msgp, Sink, Writes, WritesAlike}
use plugo.Shared.Encode.{
  marshal_extra_result, marshal_task_info, marshal_task_result, marshal_request_payload,
  marshal_response_payload, marshal_ipc_req_message, marshal_ipc_resp_message,
}
use plugo.Shared.Write.{
  ◌>>◌, write_at, encode_extra_result, encode_task_info, encode_task_result, encode_request_payload,
  encode_response_payload, encode_ipc_req_message, encode_ipc_resp_message,
}
use plugo.Shared.Layout.{
  extra_result_bytes, task_info_bytes, task_result_bytes, request_payload_bytes,
  response_payload_bytes, ipc_req_bytes, ipc_resp_bytes, marshal_extra_result_lem,
  marshal_task_info_lem, marshal_task_result_lem, marshal_request_payload_lem,
  marshal_response_payload_lem, marshal_ipc_req_lem, marshal_ipc_resp_lem,
}

module _ {W : Type 0} {written : W → List ℕ} where
  infixl 5 ◌then◌
  ◌then◌ :
      {f g : W → Result W} {bs cs : List ℕ}
      → Writes written f bs
      → Writes written g cs
      → Writes written (f >> g) (bs ++ cs)
  ◌then◌ {cs} p q = record {
    write = λ w.
        let (w₁, e, h) = p.write w in
        let (w₂, d, k) = q.write w₁ in
        (w₂, rw e d, k ∙ ap (λ l. l ++ cs) h ∙ append_assoc (written w) _ cs);
  }

-- A writer's result, and the slice that says the same.
abbrev pub Agrees : {W : Type 0} → (W → List ℕ) → Result W → Result (List ℕ) → Type 0
Agrees {W} written r o = (w' : W) × (r ≡ ok w') × (o ≡ ok (written w'))

module _ (lib : Msgp) {W : Type 0} {en : Sink W} {written : W → List ℕ}
    (laws : WritesAlike lib en written) where
  open laws use {appends, writes_string, writes_int, writes_uint32}

  at_path :
      {f : W → Result W} {bs : List ℕ} (path : List String)
      → Writes written f bs
      → Writes written (write_at lib en path f) bs
  at_path path p = record { write = λ w. let (w₁, e, h) = p.write w in (w₁, rw e refl, h) }

  extra_result-Writes :
      (z : ExtraResult) → Writes written (encode_extra_result lib en z) (extra_result_bytes lib z)
  unfolding encode_extra_result
  extra_result-Writes z =
      subst (Writes written (encode_extra_result lib en z)) (simp append_assoc) (
        appends _
        then at_path _ (writes_string z.node_id)
        then appends _
        then at_path _ (writes_string z.status))

  task_info-Writes :
      (z : TaskInfo) → Writes written (encode_task_info lib en z) (task_info_bytes lib z)
  unfolding encode_task_info
  task_info-Writes z = subst (Writes written (encode_task_info lib en z)) (simp append_assoc) (
      appends _
      then at_path _ (writes_int z.step)
      then appends _
      then at_path _ (writes_string z.options))

  task_result-Writes :
      (z : TaskResult) → Writes written (encode_task_result lib en z) (task_result_bytes lib z)
  unfolding encode_task_result
  task_result-Writes z = subst (Writes written (encode_task_result lib en z)) (simp append_assoc) (
      appends _
      then at_path _ (writes_string z.message)
      then appends _
      then appends _
      then at_path _ (writes_string z.extra.node_id)
      then appends _
      then at_path _ (writes_string z.extra.status))

  request_payload-Writes :
      (z : RequestPayload)
      → Writes written (encode_request_payload lib en z) (request_payload_bytes lib z)
  unfolding encode_request_payload
  request_payload-Writes z =
      subst (Writes written (encode_request_payload lib en z)) (simp append_assoc) (
        appends _
        then at_path _ (writes_string z.task_name)
        then appends _
        then appends _
        then at_path _ (writes_int z.task_detail.step)
        then appends _
        then at_path _ (writes_string z.task_detail.options))

  response_payload-Writes :
      (z : ResponsePayload)
      → Writes written (encode_response_payload lib en z) (response_payload_bytes lib z)
  unfolding encode_response_payload
  response_payload-Writes z =
      subst (Writes written (encode_response_payload lib en z)) (simp append_assoc) (
        appends _
        then at_path _ (writes_int z.code)
        then appends _
        then appends _
        then at_path _ (writes_string z.result.message)
        then appends _
        then appends _
        then at_path _ (writes_string z.result.extra.node_id)
        then appends _
        then at_path _ (writes_string z.result.extra.status))

  ipc_req_message-Writes :
      (z : IpcReqMessage) → Writes written (encode_ipc_req_message lib en z) (ipc_req_bytes lib z)
  unfolding encode_ipc_req_message
  ipc_req_message-Writes z =
      subst (Writes written (encode_ipc_req_message lib en z)) (simp append_assoc) (
        appends _
        then at_path _ (writes_uint32 z.id)
        then appends _
        then at_path _ (writes_string z.command)
        then appends _
        then at_path _ (request_payload-Writes z.payload))

  ipc_resp_message-Writes :
      (z : IpcRespMessage)
      → Writes written (encode_ipc_resp_message lib en z) (ipc_resp_bytes lib z)
  unfolding encode_ipc_resp_message
  ipc_resp_message-Writes z =
      subst (Writes written (encode_ipc_resp_message lib en z)) (simp append_assoc) (
        appends _
        then at_path _ (writes_uint32 z.id)
        then appends _
        then at_path _ (writes_string z.command)
        then appends _
        then at_path _ (response_payload-Writes z.payload))

  agree :
      {f : W → Result W} {m : List ℕ → Result (List ℕ)} {bs : List ℕ}
      → Writes written f bs
      → ((b : List ℕ) → m b ≡ ok (b ++ bs))
      → (w : W) → Agrees written (f w) (m (written w))
  agree p e w = let (w₁, d, h) = p.write w in (w₁, d, e (written w) ∙ ap ok (sym h))

  -- On a writer that does not fail, `EncodeMsg` of each of the seven messages succeeds, and what is then
  -- written is what `MarshalMsg` makes of what was written before.
  pub encode-marshal :
      (e : ExtraResult) (i : TaskInfo) (t : TaskResult) (q : RequestPayload) (p : ResponsePayload)
      (req : IpcReqMessage) (resp : IpcRespMessage) (w : W)
      → Agrees written (encode_extra_result lib en e w) (marshal_extra_result lib e (written w))
        × Agrees written (encode_task_info lib en i w) (marshal_task_info lib i (written w))
        × Agrees written (encode_task_result lib en t w) (marshal_task_result lib t (written w))
        × Agrees written
            (encode_request_payload lib en q w)
            (marshal_request_payload lib q (written w))
        × Agrees written
            (encode_response_payload lib en p w)
            (marshal_response_payload lib p (written w))
        × Agrees written
            (encode_ipc_req_message lib en req w)
            (marshal_ipc_req_message lib req (written w))
        × Agrees written
            (encode_ipc_resp_message lib en resp w)
            (marshal_ipc_resp_message lib resp (written w))
  encode-marshal e i t q p req resp w = (
    agree (extra_result-Writes e) (marshal_extra_result_lem lib e) w,
    agree (task_info-Writes i) (marshal_task_info_lem lib i) w,
    agree (task_result-Writes t) (marshal_task_result_lem lib t) w,
    agree (request_payload-Writes q) (marshal_request_payload_lem lib q) w,
    agree (response_payload-Writes p) (marshal_response_payload_lem lib p) w,
    agree (ipc_req_message-Writes req) (marshal_ipc_req_lem lib req) w,
    agree (ipc_resp_message-Writes resp) (marshal_ipc_resp_lem lib resp) w,
  )
