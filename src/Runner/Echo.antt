-- ===== src/Runner/Echo.antt =====
-- The goroutine of the Bidi route of the demonstration, over the requests in its stream's queue.
pub mod Ends
use plugo.Prelude.{
  ℕ, zero, suc, ◌+◌, ◌*◌, ◌<◌, ◌^◌, ◌≡◌, refl, sym, ap, subst, fun_ext, ◌∙◌, ◌++◌, List, [], ◌∷◌,
  some, true, All, arith, length, get_elem?, set, get_elem?-set_self, get_elem?-lt, append_assoc,
  append-nil,
}
use plugo.Io.{Failure, eof, Result, ok, fail, wrapped}
use plugo.Context.{background, quiet}
use plugo.Codec.{Codec}
use plugo.Talk
use plugo.Talk.{Talk, Call, Reply, resume}
use plugo.Wire.{StreamFrame}
use plugo.Wire.RoundTrip.{frame_bytes}
use plugo.Conn.{Stream, MessageConn, cancel_at}
use plugo.Reader.{channel, returned}
use plugo.Stream.{read_out, recv_poll}
use plugo.Routing.{recv}
use plugo.Chan.{recv_from}
use plugo.Tasks.{task_turn, make_call, after_call, after_receive}
use plugo.Generic.{TypedCall, TypedReply, done, received, typed_talk, lower_call}
use plugo.System.Sending.{data_frame, data_bytes, FitsWrite, CanSend, send_data}
use plugo.System.Transfer.{data_frames, with_queue, recv_poll_queued}
use plugo.System.Writes.{IsHealthy, put_output, with_rwc}
use plugo.System.Endings.{close_frame}
use plugo.System.Replying.{turns}
use plugo.System.Closing.{ClosedBy, cancel_at-found, task_turn-call, turn-closes}
use plugo.Runner.{PluginConfig, Values, processed, realtime_sync}
use plugo.Runner.Serving.{Exchange, raws}

abbrev pub replies : {V : Type 0} → List (Exchange V) → List (List ℕ)
replies [] = []
replies (x ∷ l) = x.reply ∷ replies l

abbrev pub two_times : ℕ → ℕ
two_times zero = 0
two_times (suc n) = suc (suc (two_times n))

module _ {V : Type 0} where
  recv_queued :
      (id ref : ℕ) (bs : List ℕ) (queue : List StreamFrame) (m : MessageConn V) (s : Stream)
      → get_elem? m.objects ref ≡ some s
      → s.recv_ch.items ≡ data_frame id bs ∷ queue
      → recv channel background ref m
        ≡ returned (ok bs) (record m { objects = set m.objects ref (with_queue queue s) })
  unfolding recv
  recv_queued id ref bs queue m s e q = rw (recv, recv_poll_queued id ref bs queue m s e q) refl

module _ {V : Type 0} (values : Values V) (cfg : PluginConfig) (c : Codec V) where
  -- The handler as the goroutine that `HandleBidi` registers.
  abbrev pub sync_talk : Talk
  sync_talk = typed_talk c (realtime_sync values cfg)

  -- The codec reads the request, and makes the response's bytes of what the handler answers.
  pub record IsEchoed (x : Exchange V) : Type 0 where
    pub reads : c.unmarshal x.raw ≡ ok x.request
    pub writes : c.marshal (processed values cfg x.request) ≡ ok x.reply
    pub fits : FitsWrite x.reply

  -- The goroutine is at the head of its loop, and its stream is open with these frames queued.
  pub record Syncing (id ref i : ℕ) (queue : List StreamFrame) (m : MessageConn V) : Type 0 where
    pub can_send : CanSend id ref m
    pub queued : can_send.stream.recv_ch.items ≡ queue
    pub task_is : get_elem? m.tasks i ≡ some (ref, sync_talk)

  -- What it calls behind a request, and where it is behind the response.
  asked_talk :
      (x : Exchange V)
      → IsEchoed x
      → resume sync_talk (Reply.received (ok x.raw)) [] ≡ Call.send (some background) x.reply
  unfolding typed_talk realtime_sync
  asked_talk x h = rw h.reads (rw h.writes refl)

  around_talk :
      (x : Exchange V)
      → IsEchoed x
      → resume (resume sync_talk (Reply.received (ok x.raw))) (Reply.done (ok tt)) ≡ sync_talk
  unfolding typed_talk realtime_sync
  around_talk x h = fun_ext (λ rs. rw h.reads refl)

  -- The connection behind a `Recv` that takes a request, and behind the `Send` of its response.
  abbrev pub with_request :
      ℕ → ℕ → Exchange V → List StreamFrame → Stream → MessageConn V → MessageConn V
  with_request ref i x queue s m = record m {
    objects = set m.objects ref (with_queue queue s);
    tasks = set m.tasks i (ref, resume sync_talk (Reply.received (ok x.raw)));
  }

  pub turn_receives :
      (id ref i : ℕ) (x : Exchange V) (queue : List StreamFrame) (m : MessageConn V)
      (h : Syncing id ref i (data_frame id x.raw ∷ queue) m)
      → task_turn channel quiet i m ≡ with_request ref i x queue h.can_send.stream m
  unfolding typed_talk realtime_sync
  turn_receives id ref i x queue m h =
      task_turn-call ref i sync_talk (Call.recv (some background)) m h.task_is refl
      ∙ ap (after_receive i ref sync_talk m)
          (recv_queued id ref x.raw queue m h.can_send.stream h.can_send.found h.queued)

  request-CanSend :
      (id ref i : ℕ) (x : Exchange V) (queue : List StreamFrame) (m : MessageConn V)
      (h : CanSend id ref m)
      → CanSend id ref (with_request ref i x queue h.stream m)
  request-CanSend id ref i x queue m h = record {
    healthy = h.healthy;
    stream = with_queue queue h.stream;
    found = get_elem?-set_self m.objects ref _ (get_elem?-lt m.objects ref _ h.found);
    named = h.named;
    live = h.live;
  }

  abbrev with_reply : ℕ → ℕ → ℕ → Exchange V → MessageConn V → MessageConn V
  with_reply id ref i x m = record m {
    rwc = put_output (frame_bytes (data_frame id x.reply)) m.rwc;
    tasks =
        set m.tasks i
          (ref, resume (resume sync_talk (Reply.received (ok x.raw))) (Reply.done (ok tt)));
  }

  turn_sends :
      (id ref i : ℕ) (x : Exchange V) (m : MessageConn V)
      → id < 2 ^ 32
      → IsEchoed x
      → CanSend id ref m
      → get_elem? m.tasks i ≡ some (ref, resume sync_talk (Reply.received (ok x.raw)))
      → task_turn channel quiet i m ≡ with_reply id ref i x m
  turn_sends id ref i x m fits e h k =
      let talk = resume sync_talk (Reply.received (ok x.raw)) in
      task_turn-call ref i talk (Call.send (some background) x.reply) m k (asked_talk x e)
      ∙ ap (after_call i ref talk) (send_data id ref x.reply m fits h e.fits)

  -- Two calls: a request is taken and answered.
  round_Syncing :
      (id ref i : ℕ) (x : Exchange V) (queue : List StreamFrame) (m : MessageConn V)
      → id < 2 ^ 32
      → IsEchoed x
      → Syncing id ref i (data_frame id x.raw ∷ queue) m
      → Syncing id ref i queue (turns 2 i m)
        × ((turns 2 i m).rwc.output ≡ m.rwc.output ++ frame_bytes (data_frame id x.reply))
  unfolding turns
  round_Syncing id ref i x queue m fits e h =
      let m₁ = with_request ref i x queue h.can_send.stream m in
      let able = request-CanSend id ref i x queue m h.can_send in
      let asked = get_elem?-set_self m.tasks i _ (get_elem?-lt m.tasks i _ h.task_is) in
      let both : turns 2 i m ≡ with_reply id ref i x m₁ =
        ap (task_turn channel quiet i) (turn_receives id ref i x queue m h)
        ∙ turn_sends id ref i x m₁ fits e able asked in
      (
        subst (Syncing id ref i queue) (sym both) (record {
          can_send = record {
            healthy = record {
              usable = h.can_send.healthy.usable;
              writable = h.can_send.healthy.writable;
            };
            stream = with_queue queue h.can_send.stream;
            found =
                get_elem?-set_self m.objects ref _ (get_elem?-lt m.objects ref _ h.can_send.found);
            named = h.can_send.named;
            live = h.can_send.live;
          };
          queued = refl;
          task_is =
              get_elem?-set_self m₁.tasks i _ (get_elem?-lt m₁.tasks i _ asked)
              ∙ ap (λ t. some (ref, t)) (around_talk x e);
        }),
        ap (λ x. x.rwc.output) both,
      )

  -- Any number of requests are taken and answered, and the rest of the queue stays.
  pub rounds_Syncing :
      (id ref i : ℕ) (l : List (Exchange V)) (queue : List StreamFrame) (m : MessageConn V)
      → id < 2 ^ 32
      → All IsEchoed l
      → Syncing id ref i (data_frames id (raws l) ++ queue) m
      → Syncing id ref i queue (turns (two_times (length l)) i m)
        × ((turns (two_times (length l)) i m).rwc.output
            ≡ m.rwc.output ++ data_bytes id (replies l))
  unfolding turns
  rounds_Syncing id ref i [] queue m fits a h = (h, sym (append-nil m.rwc.output))
  rounds_Syncing id ref i (x ∷ l) queue m fits (e, a) h =
      let (k, o) = round_Syncing id ref i x (data_frames id (raws l) ++ queue) m fits e h in
      let (k', o') = rounds_Syncing id ref i l queue (turns 2 i m) fits a k in
      (
        k',
        o'
            ∙ ap (λ bs. bs ++ data_bytes id (replies l)) o
            ∙ append_assoc m.rwc.output (frame_bytes (data_frame id x.reply))
                (data_bytes id (replies l)),
      )
