-- ===== src/Tests/Exchanges.antt =====
-- One call of the example host, answered by the example plugin over a concrete link.
use plugo.Prelude.{
  All, suc, ◌+◌, ◌++◌, Bool, true, false, ◌∙◌, ℕ, ◌<◌, ◌^◌, ◌≡◌, refl, subst, sym, arith, ap, List,
  [], ◌∷◌, none, some, length, get_elem?, lookup, nat_eq, bytes_of,
}
use plugo.Io.{ok, ok_eq, read_full, write}
use plugo.Context.{background, quiet, conn_with_context}
use plugo.Wire.{frame_buffer, put_uint32, uint32}
use plugo.Conn.{new_message_conn, start_read_loop, write_message, write_data}
use plugo.Reader.{
  channel, read_message, read_data, read_raw, read_frame, loop_turn, dispatch, receive,
}
use plugo.System
use plugo.System.{turn}
use plugo.Generic.{read_value, write_value}
use plugo.Shared.{pos, RequestPayload, ResponsePayload, IpcReqMessage}
use plugo.Runner.{PluginConfig, Values, response_to, serve_round}
use plugo.Runner.Plugins.{json_plugin}
use plugo.IpcClient.{
  Payloads, over, result, new_ipc_client, begin_call, write_call, await_call, end_call, read_round,
  dispatch_response,
}
use plugo.IpcClient.Acts
use plugo.IpcClient.Delivery.{call_with}
use plugo.Together.{
  History, Together, Event, host_acts, plugin_turns, plugin_serves, to_plugin, to_host, begins,
  writes, awaits, reads, turns, perform, note, run, ask,
}
use plugo.System.Sending.{FitsWrite}
use plugo.Together.Sound.{AllCarried}
use plugo.Together.BothSides.{Carried}
use plugo.Together.Answers.{IsIdle, outcome, await_call-response_to}
use plugo.Together.Answers.{joined, connected, no_history}
use plugo.Together.Steady.{Steady}
use plugo.Together.Ready.{Ready, Brought}
use plugo.Together.Answering.{AllBrought, all_events, returned_calls, run-returned_calls}
use plugo.HostMain.{task_payload}
use plugo.HostMain.Tasks.{AsksTask, await_call-task_payload}
use plugo.Tests.{first_byte, link, byte_codec}

abbrev task : RequestPayload
task = record {
  task_name = bytes_of "Task-1";
  task_detail = record { step = pos 1; options = bytes_of "A,B,C" };
}

-- A message is one byte, its id: the request of that id, or the response to it.
abbrev request : ℕ → IpcReqMessage
request n = record { id = n; command = bytes_of "execute"; payload = task }

abbrev config : PluginConfig
config = json_plugin (λ n. n ∷ [])

abbrev reply : ResponsePayload
unfolding response_to
reply = (response_to config (request 1)).payload

abbrev payloads : Payloads ℕ
unfolding response_to
payloads = record { request = λ q. q.id; response = λ n. response_to config (request n) }

abbrev values : Values ℕ
values = record { payload = λ n. task; response = λ p. 0; message = request; outgoing = λ r. r.id }

-- A call, with the bytes of its request brought in two pieces.
abbrev one_call : List Event
one_call =
    host_acts begins
    ∷ host_acts (writes background (bytes_of "execute") task 0)
    ∷ to_plugin 5
    ∷ to_plugin 8
    ∷ plugin_turns channel
    ∷ plugin_turns channel
    ∷ plugin_serves channel
    ∷ to_host 13
    ∷ host_acts (turns channel)
    ∷ host_acts (turns channel)
    ∷ host_acts (reads channel quiet)
    ∷ host_acts (awaits result background 0)
    ∷ []

link-IsIdle : IsIdle link
link-IsIdle = record { nothing_in = refl; nothing_out = refl; writable = refl }

abbrev done : History × Together ℕ
done =
    outcome payloads values config (byte_codec "json") (byte_codec "json") none link link one_call

one_done :
    (done.0.asked ≡ (0, request 1) ∷ [])
    × (get_elem? done.1.host.calls 0 ≡ some (call_with 1 [] (over (ok reply))))
    × (length done.1.host.calls < 2 ^ 32)
unfolding run perform note ask Acts.perform Acts.hear new_ipc_client begin_call write_call
    await_call end_call read_round dispatch_response System.perform loop_turn read_frame dispatch
    receive serve_round response_to start_read_loop new_message_conn read_value write_value
    read_message write_message read_data read_raw write_data read_full write frame_buffer put_uint32
    uint32 conn_with_context payloads reply
one_done = (refl, refl, omega arith)

fits_one : (n : ℕ) (bs : List ℕ) → n ∷ [] ≡ bs → FitsWrite bs
fits_one n bs e = subst FitsWrite e (omega arith)

-- The number that one byte stands for.
read_one : (n : ℕ) (bs : List ℕ) (v : ℕ) → n ∷ [] ≡ bs → first_byte bs ≡ ok v → n ≡ v
read_one n bs v e h = ok_eq (ap first_byte e ∙ h)

request-Carried : Carried payloads values config (byte_codec "json") (byte_codec "json") (request 1)
unfolding payloads response_to
request-Carried = record {
  request_fits = λ bs e. fits_one 1 bs (ok_eq e);
  request_read = λ bs v e h. ap request (sym (read_one 1 bs v (ok_eq e) h));
  response_fits = λ bs e. fits_one 1 bs (ok_eq e);
  response_read =
      λ bs v e h. ap (λ n. response_to config (request n)) (sym (read_one 1 bs v (ok_eq e) h));
}

one_carried : AllCarried payloads values config (byte_codec "json") (byte_codec "json") done.0.asked
one_carried =
    subst (AllCarried payloads values config (byte_codec "json") (byte_codec "json"))
      (sym one_done.0) (request-Carried, tt)

await_call-response_to_example :
    (q : IpcReqMessage) × (lookup 0 done.0.asked ≡ some q)
    × (q.id ≡ 1)
    × (reply ≡ (response_to config q).payload)
await_call-response_to_example =
    await_call-response_to payloads values config (byte_codec "json") (byte_codec "json") none link
      link one_call 0 (call_with 1 [] (over (ok reply))) reply link-IsIdle link-IsIdle one_carried
      one_done.2 one_done.1 refl

abbrev fresh : Together ℕ
fresh =
    joined none (connected (byte_codec "json") true link) (connected (byte_codec "json") false link)

link-Steady :
    (b : Bool) → Steady (byte_codec "json") [] [] [] (connected (byte_codec "json") b link)
unfolding start_read_loop new_message_conn
link-Steady b = record {
  started = refl;
  speaks = refl;
  healthy = record { usable = refl; writable = refl };
  at_head = refl;
  alive = refl;
  wide = refl;
  to_come = refl;
  queued = refl;
  written = refl;
}

fresh-Ready : Ready payloads values config (byte_codec "json") (byte_codec "json") fresh
unfolding new_ipc_client
fresh-Ready = record {
  reading = refl;
  serves = refl;
  nobody_waits = refl;
  host_conn = link-Steady true;
  plugin_conn = link-Steady false;
}

request-Brought :
    (n : ℕ) → Brought payloads values config (byte_codec "json") (byte_codec "json") (request n)
unfolding payloads response_to
request-Brought n = record {
  request_bytes = n ∷ [];
  request_value = n;
  request_out = refl;
  request_fits = omega arith;
  request_in = refl;
  request_read = refl;
  response_bytes = n ∷ [];
  response_value = n;
  response_out = refl;
  response_fits = omega arith;
  response_in = refl;
  response_read = refl;
}

abbrev two_tasks : List (List ℕ × RequestPayload)
two_tasks = (bytes_of "execute", task) ∷ (bytes_of "execute", task) ∷ []

both_Brought :
    AllBrought payloads values config
      (byte_codec "json")
      (byte_codec "json")
      fresh.host.active_id
      two_tasks
unfolding new_ipc_client
both_Brought = (request-Brought 1, (request-Brought 2, tt))

abbrev behind : Together ℕ
behind =
    (run payloads values config
      (all_events payloads values config (byte_codec "json") (byte_codec "json") fresh.host.calls
        fresh.host.active_id two_tasks both_Brought)
      (no_history, fresh)).1

run-returned_calls_example :
    (behind.host.calls ≡ fresh.host.calls ++ returned_calls config fresh.host.active_id two_tasks)
    × Ready payloads values config (byte_codec "json") (byte_codec "json") behind
run-returned_calls_example =
    run-returned_calls payloads values config (byte_codec "json") (byte_codec "json") no_history
      fresh two_tasks both_Brought fresh-Ready

abbrev digit : ℕ → List ℕ
digit n = (48 + n) ∷ []

asks_first : All (AsksTask digit suc) one_call
unfolding task_payload
asks_first = (tt, (refl, (tt, (tt, (tt, (tt, (tt, (tt, (tt, (tt, (tt, (tt, tt))))))))))))

await_call-task_payload_example : reply ≡ record {
  code = pos 200;
  result = record {
    message = config.message_prefix ++ (bytes_of "Task-" ++ digit 1);
    extra = record { node_id = config.node_id; status = bytes_of "SUCCESS" };
  };
}
await_call-task_payload_example =
    await_call-task_payload digit suc payloads values config (byte_codec "json") (byte_codec "json")
      none link link one_call 0 (call_with 1 [] (over (ok reply))) reply asks_first link-IsIdle
      link-IsIdle one_carried one_done.2 one_done.1 refl
