-- ===== src/Tests/Clients.antt =====
-- A client of the example host, with one call, on a concrete connection.
use plugo.Prelude.{
  ℕ, ◌≡◌, refl, arith, true, false, List, [], ◌∷◌, none, some, length, get_elem?, nat_eq, ◌++◌,
}
use plugo.Io.{ok, fail, eof, text, read_full, write}
use plugo.Context.{background, quiet, conn_with_context}
use plugo.Wire.{frame_buffer, put_uint32, uint32}
use plugo.Wire.RoundTrip.{frame_bytes}
use plugo.Conn.{MessageConn, new_message_conn, write_message, write_data}
use plugo.Reader.{channel, returned, read_message, read_data, read_data_sync}
use plugo.Generic.{read_value, write_value}
use plugo.System
use plugo.System.{Act, arrive}
use plugo.Shared.{pos, RequestPayload, ResponsePayload, IpcRespMessage}
use plugo.IpcClient.{
  IpcClient, Payloads, waiting, over, result, plugin_done, client_ctx, new_ipc_client, begin_call,
  write_call, await_call, end_call, read_round, dispatch_response,
}
use plugo.IpcClient.Acts.{ClientAct, begins, writes, awaits, reads, uses_conn, perform, run}
use plugo.IpcClient.Kept.{Heard}
use plugo.IpcClient.Answers.{await_call-Heard}
use plugo.IpcClient.Delivery.{call_with, Returned, read_round-delivers, read_round-releases}
use plugo.Tests.{link, byte_codec}

abbrev task : RequestPayload
task = record { task_name = []; task_detail = record { step = pos 1; options = [] } }

abbrev reply : ResponsePayload
reply = record {
  code = pos 200;
  result = record { message = []; extra = record { node_id = []; status = [] } };
}

-- Messages of one byte, the id.
abbrev ids : Payloads ℕ
ids = record {
  request = λ q. q.id;
  response = λ n. record { id = n; command = []; payload = reply };
}

abbrev host : MessageConn ℕ
unfolding new_message_conn
host = new_message_conn link (byte_codec "json") true

abbrev start : List IpcRespMessage × IpcClient ℕ
start = ([], new_ipc_client none host)

abbrev asked : List ClientAct
asked =
    begins
    ∷ writes background [] task 0
    ∷ uses_conn (arrive (frame_bytes (record { stream_id = 0; flags = 0; payload = 1 ∷ [] })))
    ∷ []

abbrev whole_call : List ClientAct
whole_call = asked ++ (reads channel quiet ∷ awaits result background 0 ∷ [])

one_answered :
    get_elem? (run ids whole_call start).1.calls 0 ≡ some (call_with 1 [] (over (ok reply)))
unfolding run perform new_ipc_client begin_call write_call await_call end_call read_round
    dispatch_response System.perform read_value write_value read_message write_message read_data
    write_data read_data_sync read_full write frame_buffer put_uint32 uint32 conn_with_context host
one_answered = refl

await_call-Heard_example : Heard (run ids whole_call start).0 1 reply
await_call-Heard_example =
    await_call-Heard ids none host whole_call 0 (call_with 1 [] (over (ok reply))) reply
      one_answered refl

abbrev client : IpcClient ℕ
client = (run ids asked start).1

one_waits : get_elem? client.calls 0 ≡ some (call_with 1 [] waiting)
unfolding run perform new_ipc_client begin_call write_call await_call end_call read_round
    dispatch_response System.perform read_value write_value read_message write_message read_data
    write_data read_data_sync read_full write frame_buffer put_uint32 uint32 conn_with_context host
one_waits = refl

one_call : length client.calls ≡ 1
unfolding run perform new_ipc_client begin_call write_call await_call end_call read_round
    dispatch_response System.perform read_value write_value read_message write_message read_data
    write_data read_data_sync read_full write frame_buffer put_uint32 uint32 conn_with_context host
one_call = refl

client_reads : client.reading ≡ true
unfolding run perform new_ipc_client begin_call write_call await_call end_call read_round
    dispatch_response System.perform read_value write_value read_message write_message read_data
    write_data read_data_sync read_full write frame_buffer put_uint32 uint32 conn_with_context host
client_reads = refl

abbrev emptied : MessageConn ℕ → MessageConn ℕ
emptied m = record m { rwc = record rwc { input = [] } }
  where
    open m use {rwc}

abbrev read_off : MessageConn ℕ
read_off = emptied client.conn

one_arrives : read_value channel (client_ctx quiet client) client.conn ≡ returned (ok 1) read_off
unfolding run perform new_ipc_client begin_call write_call await_call end_call read_round
    dispatch_response System.perform read_value write_value read_message write_message read_data
    write_data read_data_sync read_full write frame_buffer put_uint32 uint32 conn_with_context host
one_arrives = refl

read_round-delivers_example :
    Returned 0
      (call_with 1 [] waiting)
      (ok reply)
      (await_call result background 0 (read_round ids channel quiet client))
read_round-delivers_example =
    read_round-delivers ids none host asked client channel quiet background 1 read_off 0 1 refl
      (omega (arith, one_call)) one_waits client_reads one_arrives refl

-- The peer goes away without an answer.
abbrev left : IpcClient ℕ
left = (run ids (begins ∷ writes background [] task 0 ∷ []) start).1

left_waits : get_elem? left.calls 0 ≡ some (call_with 1 [] waiting)
unfolding run perform new_ipc_client begin_call write_call await_call end_call read_round
    dispatch_response System.perform read_value write_value read_message write_message read_data
    write_data read_data_sync read_full write frame_buffer put_uint32 uint32 conn_with_context host
left_waits = refl

left_reads : left.reading ≡ true
unfolding run perform new_ipc_client begin_call write_call await_call end_call read_round
    dispatch_response System.perform read_value write_value read_message write_message read_data
    write_data read_data_sync read_full write frame_buffer put_uint32 uint32 conn_with_context host
left_reads = refl

left_ends : read_value channel (client_ctx quiet left) left.conn ≡ returned (fail eof) left.conn
unfolding run perform new_ipc_client begin_call write_call await_call end_call read_round
    dispatch_response System.perform read_value write_value read_message write_message read_data
    write_data read_data_sync read_full write frame_buffer put_uint32 uint32 conn_with_context host
left_ends = refl

read_round-releases_example :
    ((read_round ids channel quiet left).reading ≡ false)
    × Returned 0
        (call_with 1 [] waiting)
        (fail (text "plugin connection closed"))
        (await_call plugin_done background 0 (read_round ids channel quiet left))
read_round-releases_example =
    read_round-releases ids left channel quiet background eof left.conn 0 1 [] left_reads left_ends
      left_waits
