-- ===== src/Tests/Messages.antt =====
-- The messages of examples/shared over a concrete encoding, on which their theorems are applied.
use plugo.Prelude.{ℕ, ◌≡◌, refl, arith, List, [], ◌∷◌, ◌++◌, some, bytes_of}
use plugo.Io.{text, ok, fail}
use plugo.Codec.{marshal}
use plugo.Generic.RoundTrip.{RoundTrips}
use plugo.Shared.{
  pos, negsuc, TaskInfo, RequestPayload, ExtraResult, TaskResult, ResponsePayload, IpcReqMessage,
  IpcRespMessage,
}
use plugo.Shared.Small.{IsSmallInfo, IsSmallReqMessage, IsSmallRespMessage}
use plugo.Shared.Encode.{
  marshal_extra_result, marshal_task_info, marshal_task_result, marshal_request_payload,
  marshal_response_payload, marshal_ipc_req_message, marshal_ipc_resp_message, msgsize_extra_result,
  msgsize_task_info, msgsize_task_result, msgsize_request_payload, msgsize_response_payload,
  msgsize_ipc_req_message, msgsize_ipc_resp_message,
}
use plugo.Shared.Write.{
  encode_extra_result, encode_task_info, encode_task_result, encode_request_payload,
  encode_response_payload, encode_ipc_req_message, encode_ipc_resp_message,
}
use plugo.Shared.Decode.{decode_ipc_req_message, decode_ipc_resp_message}
use plugo.Shared.Layout.{
  ipc_req_bytes, ipc_resp_bytes, ipc_req_fields, marshal_ipc_req_lem, marshal_ipc_resp_lem,
}
use plugo.Shared.WriteAlike.{Agrees, encode-marshal}
use plugo.Shared.Sizes.{Appends, marshal-le-msgsize}
use plugo.Shared.RoundTrip.{decode-marshal_ipc_req, decode-marshal_ipc_resp}
use plugo.Shared.MsgpackCodec.{ipc_req_message, value, pointer, msgpack_codec}
use plugo.Shared.MsgpackCodec.RoundTrip.{msgpack_codec-RoundTrips, marshal-value_refused}
use plugo.Shared.Msgp.{Reads, map_head, key}
use plugo.Tests.Encoding.{
  counted_msgp, slices, buffer, slices_read_back, buffer-WritesAlike, sizes_bound,
}

abbrev info : TaskInfo
info = record { step = pos 2; options = bytes_of "fast" }

abbrev old_info : TaskInfo
old_info = record { step = negsuc 0; options = bytes_of "slow" }

abbrev request_payload : RequestPayload
request_payload = record { task_name = bytes_of "scan"; task_detail = info }

abbrev extra : ExtraResult
extra = record { node_id = bytes_of "n1"; status = bytes_of "SUCCESS" }

abbrev task_result : TaskResult
task_result = record { message = bytes_of "done"; extra = extra }

abbrev response_payload : ResponsePayload
response_payload = record { code = pos 200; result = task_result }

abbrev req : IpcReqMessage
req = record { id = 7; command = bytes_of "run"; payload = request_payload }

abbrev zero_req : IpcReqMessage
zero_req = record {
  id = 0;
  command = [];
  payload = record { task_name = []; task_detail = old_info };
}

abbrev resp : IpcRespMessage
resp = record { id = 7; command = bytes_of "run"; payload = response_payload }

small_info : IsSmallInfo info
small_info = record { step_fits = omega arith; options_fit = omega arith }

small_req : IsSmallReqMessage req
small_req = record {
  id_fits = omega arith;
  command_fits = omega arith;
  small_payload = record { task_name_fits = omega arith; small_detail = small_info };
}

small_resp : IsSmallRespMessage resp
small_resp = record {
  id_fits = omega arith;
  command_fits = omega arith;
  small_payload = record {
    code_fits = omega arith;
    small_result = record {
      message_fits = omega arith;
      small_extra = record { node_id_fits = omega arith; status_fits = omega arith };
    };
  };
}

abbrev req_bytes : List ℕ
req_bytes = ipc_req_bytes counted_msgp req

abbrev resp_bytes : List ℕ
resp_bytes = ipc_resp_bytes counted_msgp resp

decode-marshal_ipc_req_example :
    (left : List ℕ) × (decode_ipc_req_message counted_msgp slices zero_req (req_bytes ++ 1 ∷ [])
      ≡ ok (req, left))
    × (left ≡ 1 ∷ [])
decode-marshal_ipc_req_example =
    decode-marshal_ipc_req counted_msgp slices_read_back zero_req req req_bytes (1 ∷ [])
      (req_bytes ++ 1 ∷ []) small_req (marshal_ipc_req_lem counted_msgp req []) refl

decode-marshal_ipc_resp_example :
    (left : List ℕ) × (decode_ipc_resp_message counted_msgp slices resp resp_bytes
      ≡ ok (resp, left))
    × (left ≡ [])
decode-marshal_ipc_resp_example =
    decode-marshal_ipc_resp counted_msgp slices_read_back resp resp resp_bytes [] resp_bytes
      small_resp (marshal_ipc_resp_lem counted_msgp resp []) refl

one_byte_skipped : (b : ℕ) → Reads (λ l. l) slices.skip tt (b ∷ [])
one_byte_skipped b = record { read = λ s after e. (after, rw e refl, refl) }

abbrev newer_bytes : List ℕ
newer_bytes = map_head 4 ++ (key (bytes_of "trace") ++ (9 ∷ [] ++ ipc_req_fields counted_msgp req))

msgpack_codec-RoundTrips_example :
    RoundTrips
      (msgpack_codec counted_msgp slices (pointer ipc_req_message zero_req))
      (pointer ipc_req_message req)
msgpack_codec-RoundTrips_example =
    msgpack_codec-RoundTrips counted_msgp slices_read_back ipc_req_message zero_req req small_req

marshal-value_refused_example :
    (marshal
        (some (msgpack_codec counted_msgp slices (pointer ipc_req_message zero_req)))
        (value ipc_req_message req)
      ≡ fail (text "type does not implement msgp.Marshaler interface"))
    × ((bs : List ℕ) × (marshal
            (some (msgpack_codec counted_msgp slices (pointer ipc_req_message zero_req)))
            (pointer ipc_req_message req)
          ≡ ok bs))
marshal-value_refused_example =
    marshal-value_refused counted_msgp slices ipc_req_message (pointer ipc_req_message zero_req) req
      tt

encode-marshal_example :
    Agrees
      (λ w. w)
      (encode_extra_result counted_msgp buffer extra [])
      (marshal_extra_result counted_msgp extra [])
    × Agrees
        (λ w. w)
        (encode_task_info counted_msgp buffer info [])
        (marshal_task_info counted_msgp info [])
    × Agrees
        (λ w. w)
        (encode_task_result counted_msgp buffer task_result [])
        (marshal_task_result counted_msgp task_result [])
    × Agrees
        (λ w. w)
        (encode_request_payload counted_msgp buffer request_payload [])
        (marshal_request_payload counted_msgp request_payload [])
    × Agrees
        (λ w. w)
        (encode_response_payload counted_msgp buffer response_payload [])
        (marshal_response_payload counted_msgp response_payload [])
    × Agrees
        (λ w. w)
        (encode_ipc_req_message counted_msgp buffer req [])
        (marshal_ipc_req_message counted_msgp req [])
    × Agrees
        (λ w. w)
        (encode_ipc_resp_message counted_msgp buffer resp [])
        (marshal_ipc_resp_message counted_msgp resp [])
encode-marshal_example =
    encode-marshal counted_msgp buffer-WritesAlike extra info task_result request_payload
      response_payload req resp []

marshal-le-msgsize_example :
    Appends
      (marshal_extra_result counted_msgp extra [])
      []
      (msgsize_extra_result counted_msgp extra)
    × Appends (marshal_task_info counted_msgp info []) [] (msgsize_task_info counted_msgp info)
    × Appends
        (marshal_task_result counted_msgp task_result [])
        []
        (msgsize_task_result counted_msgp task_result)
    × Appends
        (marshal_request_payload counted_msgp request_payload [])
        []
        (msgsize_request_payload counted_msgp request_payload)
    × Appends
        (marshal_response_payload counted_msgp response_payload [])
        []
        (msgsize_response_payload counted_msgp response_payload)
    × Appends
        (marshal_ipc_req_message counted_msgp req [])
        []
        (msgsize_ipc_req_message counted_msgp req)
    × Appends
        (marshal_ipc_resp_message counted_msgp resp [])
        []
        (msgsize_ipc_resp_message counted_msgp resp)
marshal-le-msgsize_example =
    marshal-le-msgsize counted_msgp sizes_bound extra info task_result request_payload
      response_payload req resp []
