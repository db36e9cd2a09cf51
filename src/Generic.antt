-- ===== src/Generic.antt =====
-- generic.go: the typed layer over a connection. `V` is the type of all values that the application
-- marshals; a typed stream is the index of its stream.
pub mod RoundTrip
pub mod Replies
use plugo.Prelude.{ℕ, Bool, List, [], ◌∷◌, Option, none, some}
use plugo.Io.{Failure, wrapped, Result, ok, fail, panics, wrap, Done}
use plugo.Context.{Ctx, Moment}
use plugo.Talk
use plugo.Talk.{Sender, Move, Collector, Talk, Call, Reply, SingleMultiHandler}
use plugo.Codec.{Codec}
use plugo.Conn.{
  MessageConn, handle_single_multi, handle_multi_single, handle_bidi, call_bidi, write_message,
}
use plugo.Reader.{Pick, Attempt, returned, waits, read_message}
use plugo.Stream
use plugo.Routing
use plugo.Routing.{CallCtx, call_single_multi, await_single}

-- `func(req Req, sender func(Resp) error) error`, behind its request: a call of `sender`, or the return.
pub data TypedMove (V : Type 0) : Type 0 where
  returns : Done → TypedMove V
  sends : V → TypedMove V

abbrev pub TypedSender : Type 0 → Type 0
TypedSender V = List Done → TypedMove V

-- `func(reqs <-chan Req) (Resp, error)`, as a `Collector` of values.
pub record TypedCollector (V : Type 0) : Type 0 where
  pub on_requests : List V → Option (Result V)
  pub at_end : List V → Result V

-- What a handler does with a `TypedStream`: its next call, from the results of those before.
pub data TypedCall (V : Type 0) : Type 0 where
  finish : TypedCall V
  send : Ctx → V → TypedCall V
  recv : Ctx → TypedCall V
  close_write : TypedCall V
  close : TypedCall V

pub data TypedReply (V : Type 0) : Type 0 where
  done : Done → TypedReply V
  received : Result V → TypedReply V

abbrev pub TypedTalk : Type 0 → Type 0
TypedTalk V = List (TypedReply V) → TypedCall V

abbrev pub keep_ok : {A : Type 0} → Result A → List A → List A
keep_ok (ok a) l = a ∷ l
keep_ok (fail e) l = l
keep_ok panics l = l

module _ {V : Type 0} where
  -- The two generic functions on a connection.
  unfoldable pub read_value : Pick → Ctx → MessageConn V → Attempt V (MessageConn V)
  unfolding read_message
  read_value = read_message

  unfoldable pub write_value : Ctx → V → MessageConn V → Done × MessageConn V
  unfolding write_message
  write_value = write_message

  -- `TypedStream.Send` and `TypedStream.Recv`
  unfoldable pub typed_send : Pick → Ctx → ℕ → V → MessageConn V → Done × MessageConn V
  typed_send pick ctx ref v m = elim (m.codec.marshal v) [
    | ok bs ↦ Stream.send pick ctx ref bs m
    | fail e ↦ (fail (wrapped "failed to marshal request" e), m)
    | panics ↦ (panics, m)
  ]

  abbrev pub decode_response : Codec V → Result (List ℕ) → Result V
  decode_response c (ok bs) = wrap "failed to unmarshal response" (c.unmarshal bs)
  decode_response c (fail e) = fail e
  decode_response c panics = panics

  abbrev pub decoding : Codec V → Attempt (List ℕ) (MessageConn V) → Attempt V (MessageConn V)
  decoding c (returned r m) = returned (decode_response c r) m
  decoding c waits = waits

  unfoldable pub typed_recv : Pick → Ctx → ℕ → MessageConn V → Attempt V (MessageConn V)
  typed_recv pick ctx ref m = decoding m.codec (Routing.recv pick ctx ref m)

  unfoldable pub typed_close_write : Moment → ℕ → MessageConn V → Done × MessageConn V
  typed_close_write = Stream.close_write

  unfoldable pub typed_close : Moment → ℕ → MessageConn V → Done × MessageConn V
  typed_close = Stream.close

  -- `Route.CallSingleMulti`, up to its goroutine.
  unfoldable pub route_call_single_multi :
      CallCtx → List ℕ → V → MessageConn V → Result ℕ × MessageConn V
  route_call_single_multi cc route req m = elim (m.codec.marshal req) [
    | ok bs ↦ call_single_multi cc route bs m
    | fail e ↦ (fail (wrapped "failed to marshal request" e), m)
    | panics ↦ (panics, m)
  ]

  -- Its goroutine, and that of `HandleMultiSingle`: what does not unmarshal is dropped.
  unfoldable pub decode_all : Codec V → List (List ℕ) → List V
  decode_all c [] = []
  decode_all c (bs ∷ l) = keep_ok (c.unmarshal bs) (decode_all c l)

  -- The goroutine of `Route.CallMultiSingle`: what does not marshal is dropped.
  unfoldable pub encode_all : Codec V → List V → List (List ℕ)
  encode_all c [] = []
  encode_all c (v ∷ l) = keep_ok (c.marshal v) (encode_all c l)

  -- `Route.CallMultiSingle`, from the wait for the response on.
  unfoldable pub route_await_single :
      Pick → Ctx → Moment → ℕ → MessageConn V → Attempt V (MessageConn V)
  route_await_single pick ctx t ref m = decoding m.codec (await_single pick ctx t ref m)

  unfoldable pub route_call_bidi : Ctx → List ℕ → MessageConn V → Result ℕ × MessageConn V
  unfolding call_bidi
  route_call_bidi = call_bidi

  -- The `sender` that a typed handler gets: a response that does not marshal is an error of the call.
  abbrev pub lower_move : Codec V → TypedMove V → Move
  lower_move c (returns d) = Move.returns d
  lower_move c (sends v) = elim (c.marshal v) [
    | ok bs ↦ Move.sends bs
    | fail e ↦ Move.refuses (fail (wrapped "failed to marshal response" e))
    | panics ↦ Move.returns panics
  ]

  unfoldable pub lower : Codec V → TypedSender V → Sender
  lower c s ds = lower_move c (s ds)

  unfoldable pub typed_handler : Codec V → (V → TypedSender V) → SingleMultiHandler
  unfolding lower
  typed_handler c h raw = elim (c.unmarshal raw) [
    | ok req ↦ lower c (h req)
    | fail e ↦ λ ds. Move.returns (fail (wrapped "failed to unmarshal request" e))
    | panics ↦ λ ds. Move.returns panics
  ]

  unfoldable pub route_handle_single_multi :
      List ℕ → (V → TypedSender V) → MessageConn V → MessageConn V
  unfolding typed_handler
  route_handle_single_multi route h m = handle_single_multi route (typed_handler m.codec h) m

  abbrev pub encode_result : Codec V → Result V → Result (List ℕ)
  encode_result c (ok resp) = wrap "failed to marshal response" (c.marshal resp)
  encode_result c (fail e) = fail e
  encode_result c panics = panics

  -- The function that `HandleMultiSingle` registers: the handler gets the requests that unmarshal.
  unfoldable pub typed_collector : Codec V → TypedCollector V → Collector
  unfolding decode_all
  typed_collector c h = record {
    on_requests = λ raws. elim (h.on_requests (decode_all c raws)) [
      | none ↦ none
      | some r ↦ some (encode_result c r)
    ];
    at_end = λ raws. encode_result c (h.at_end (decode_all c raws));
  }

  unfoldable pub route_handle_multi_single :
      List ℕ → TypedCollector V → MessageConn V → MessageConn V
  unfolding typed_collector
  route_handle_multi_single route h m = handle_multi_single route (typed_collector m.codec h) m

  -- What the typed stream of a Bidi handler makes of its calls and of the stream's replies.
  abbrev pub raise_reply : Codec V → Reply → TypedReply V
  raise_reply c (Reply.done d) = TypedReply.done d
  raise_reply c (Reply.received r) = TypedReply.received (decode_response c r)

  abbrev pub raise_all : Codec V → List Reply → List (TypedReply V)
  raise_all c [] = []
  raise_all c (r ∷ rs) = raise_reply c r ∷ raise_all c rs

  abbrev pub lower_call : Codec V → TypedCall V → Call
  lower_call c finish = Call.finish
  lower_call c (send ctx v) = elim (c.marshal v) [
    | ok bs ↦ Call.send (some ctx) bs
    | fail e ↦ Call.own_step (fail (wrapped "failed to marshal request" e))
    | panics ↦ Call.own_step panics
  ]
  lower_call c (recv ctx) = Call.recv (some ctx)
  lower_call c close_write = Call.close_write
  lower_call c close = Call.close

  unfoldable pub typed_talk : Codec V → TypedTalk V → Talk
  typed_talk c h rs = lower_call c (h (raise_all c rs))

  unfoldable pub route_handle_bidi : List ℕ → TypedTalk V → MessageConn V → MessageConn V
  unfolding typed_talk
  route_handle_bidi route h m = handle_bidi route (typed_talk m.codec h) m
