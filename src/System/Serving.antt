-- ===== src/System/Serving.antt =====
-- The goroutines of routed streams keep the invariant: each of their acts is a call on a stream.
use plugo.Prelude.{ℕ, ◌≡◌, refl, List, get_elem?, Option-cases, inl, inr, []}
use plugo.Io.{ok, fail, panics, Done}
use plugo.Context.{Ctx, Moment}
use plugo.Talk
use plugo.Talk.{Talk, Call, finish, own_step}
use plugo.Conn.{MessageConn}
use plugo.Reader.{Pick, Attempt, returned, waits}
use plugo.Stream.{recv_poll}
use plugo.Routing
use plugo.Tasks.{make_call, after_call, after_receive, ctx_of, task_turn}
use plugo.System.{after}
use plugo.System.Sound.{IsSound}
use plugo.System.Calls.{
  recv_poll-IsSound, recv_select-IsSound, send-IsSound, close_write-IsSound, close-IsSound,
}

module _ {V : Type 0} where
  tasks-IsSound :
      (m : MessageConn V) (l : List (ℕ × Talk)) → IsSound m → IsSound (record m { tasks = l })
  tasks-IsSound m l v = record { entries = v.entries; held = v.held; queues = v.queues }

  after_call-IsSound :
      (i ref : ℕ) (talk : Talk) (d : Done) (m : MessageConn V)
      → IsSound m
      → IsSound (after_call i ref talk (d, m))
  after_call-IsSound i ref talk (ok x) m v = tasks-IsSound m _ v
  after_call-IsSound i ref talk (fail e) m v = tasks-IsSound m _ v
  after_call-IsSound i ref talk panics m v = tasks-IsSound m _ v

  after_receive-IsSound :
      (i ref : ℕ) (talk : Talk) (m : MessageConn V) (a : Attempt (List ℕ) (MessageConn V))
      → IsSound (after a m)
      → IsSound (after_receive i ref talk m a)
  after_receive-IsSound i ref talk m (returned (ok x) m') v = tasks-IsSound m' _ v
  after_receive-IsSound i ref talk m (returned (fail e) m') v = tasks-IsSound m' _ v
  after_receive-IsSound i ref talk m (returned panics m') v = tasks-IsSound m' _ v
  after_receive-IsSound i ref talk m waits v = v

  either_recv-IsSound :
      (pick : Pick) (ctx : Ctx) (ref : ℕ) (m : MessageConn V) (a : Attempt (List ℕ) (MessageConn V))
      → recv_poll ref m ≡ a
      → IsSound (after a m)
      → IsSound m
      → IsSound (after (Routing.recv pick ctx ref m) m)
  unfolding Routing.recv
  either_recv-IsSound pick ctx ref m (returned r m') e w v = rw (Routing.recv, e) w
  either_recv-IsSound pick ctx ref m waits e w v =
      rw (Routing.recv, e) (recv_select-IsSound m v pick ctx ref)

  make_call-IsSound :
      (c : Call) (pick : Pick) (t : Moment) (i ref : ℕ) (talk : Talk) (m : MessageConn V)
      → IsSound m
      → IsSound (make_call c pick t i ref talk m)
  make_call-IsSound finish pick t i ref talk m v = v
  make_call-IsSound (own_step d) pick t i ref talk m v = after_call-IsSound i ref talk d m v
  make_call-IsSound (Talk.send c bs) pick t i ref talk m v =
      after_call-IsSound i ref talk _ _ (send-IsSound m v pick (ctx_of c t ref m) ref bs)
  make_call-IsSound (Talk.recv c) pick t i ref talk m v =
      after_receive-IsSound i ref talk m (Routing.recv pick (ctx_of c t ref m) ref m) (
        either_recv-IsSound pick (ctx_of c t ref m) ref m (recv_poll ref m) refl
          (recv_poll-IsSound m v ref) v)
  make_call-IsSound Talk.close_write pick t i ref talk m v =
      after_call-IsSound i ref talk _ _ (close_write-IsSound m v t ref)
  make_call-IsSound Talk.close pick t i ref talk m v =
      after_call-IsSound i ref talk _ _ (close-IsSound m v t ref)

  pub task_turn-IsSound :
      (pick : Pick) (t : Moment) (i : ℕ) (m : MessageConn V)
      → IsSound m
      → IsSound (task_turn pick t i m)
  unfolding task_turn
  task_turn-IsSound pick t i m v = elim (Option-cases (get_elem? m.tasks i)) [
    | inl e ↦ rw (task_turn, e) v
    | inr ((ref, talk), e) ↦ rw (task_turn, e) (make_call-IsSound (talk []) pick t i ref talk m v)
  ]
