-- ===== src/System/Calls.antt =====
-- The calls that other goroutines make keep the invariant.
use plugo.Prelude.{
  ℕ, ◌≡◌, refl, Bool, true, false, List, some, if◌then◌else◌, arith, get_elem?, Option-cases, inl,
  inr,
}
use plugo.Context.{Ctx, Moment}
use plugo.Chan
use plugo.Chan.{Chan, got, drained, empty, recv_from}
use plugo.Conn.{Stream, MessageConn, close_conn, cancel_at, cancel_all}
use plugo.Reader.{
  Pick, channel, stream_done, ctx_done, Attempt, returned, waits, read_raw, read_data,
  accept_select,
}
use plugo.Stream.{
  send, take_frame, read_out, cancel_if, recv_poll, recv_case, recv_select, close_write, close,
  send_gate, or_eof_now,
}
use plugo.System.{after}
use plugo.System.Sound.{IsSound, Keeps, Keeps-refl, Keeps-set, Keeps-cancel_at, Keeps-cancel_all}
use plugo.System.Steps.{rwc-IsSound, objects-IsSound, remove_stream-IsSound}

Keeps-cancel_if : (b : Bool) (ref : ℕ) (os : List Stream) → Keeps os (cancel_if b ref os)
Keeps-cancel_if true ref os = Keeps-cancel_at ref os
Keeps-cancel_if false ref os = Keeps-refl os

Keeps-if :
    (b c : Bool) (ref : ℕ) (os os' : List Stream)
    → Keeps os os'
    → Keeps os (if b then cancel_if c ref os' else os')
Keeps-if true c ref os os' k id r h = Keeps-cancel_if c ref os' id r (k id r h)
Keeps-if false c ref os os' k id r h = k id r h

Keeps-cancel_all_if :
    (b : Bool) (m : List (ℕ × ℕ)) (os : List Stream) → Keeps os (if b then cancel_all m os else os)
Keeps-cancel_all_if true m os = Keeps-cancel_all m os
Keeps-cancel_all_if false m os = Keeps-refl os

either_IsSound :
    {V A : Type 0} (m : MessageConn V) (b : Bool) (x y : Attempt A (MessageConn V))
    → IsSound (after x m)
    → IsSound (after y m)
    → IsSound (after (if b then x else y) m)
either_IsSound m true x y p q = p
either_IsSound m false x y p q = q

or_eof_now-IsSound :
    {V : Type 0} (m : MessageConn V)
    → IsSound m
    → (x : Attempt (List ℕ) (MessageConn V)) → IsSound (after x m)
    → IsSound (after (or_eof_now x m) m)
or_eof_now-IsSound m v (returned r m') h = h
or_eof_now-IsSound m v waits h = v

module _ {V : Type 0} (m : MessageConn V) (v : IsSound m) where
  take_frame-IsSound :
      (b : Bool) (ref : ℕ) (s : Stream)
      → get_elem? m.objects ref ≡ some s
      → IsSound (after (take_frame b ref s m) m)
  take_frame-IsSound b ref s e = elim (Chan.recv_cases s.recv_ch) [
    | inl (f, rest, g) ↦
        rw (g, take_frame)
          (objects-IsSound m v _ (
            Keeps-if b (read_out f).1 ref m.objects _ (
              Keeps-set m.objects ref s
                (record s {
                  recv_ch = record {
                    items = rest;
                    capacity = s.recv_ch.capacity;
                    closed = s.recv_ch.closed;
                  };
                })
                e refl refl)))
    | inr (inl g) ↦ rw (g, take_frame) v
    | inr (inr g) ↦ rw (g, take_frame) v
  ]

  pub recv_poll-IsSound : (ref : ℕ) → IsSound (after (recv_poll ref m) m)
  unfolding recv_poll
  recv_poll-IsSound ref = elim (Option-cases (get_elem? m.objects ref)) [
    | inl e ↦ rw (e, recv_poll) v
    | inr (s, e) ↦ rw (e, recv_poll) (take_frame-IsSound true ref s e)
  ]

  recv_case-IsSound :
      (pick : Pick) (ctx : Ctx) (ref : ℕ) (s : Stream)
      → get_elem? m.objects ref ≡ some s
      → IsSound (after (recv_case pick ctx ref s m) m)
  recv_case-IsSound stream_done ctx ref s e =
      either_IsSound m s.cancelled (or_eof_now (take_frame false ref s m) m) waits
        (or_eof_now-IsSound m v (take_frame false ref s m) (take_frame-IsSound false ref s e)) v
  recv_case-IsSound ctx_done ctx ref s e = ground arith
  recv_case-IsSound channel ctx ref s e = take_frame-IsSound true ref s e

  pub recv_select-IsSound :
      (pick : Pick) (ctx : Ctx) (ref : ℕ) → IsSound (after (recv_select pick ctx ref m) m)
  unfolding recv_select
  recv_select-IsSound pick ctx ref = elim (Option-cases (get_elem? m.objects ref)) [
    | inl e ↦ rw (e, recv_select) v
    | inr (s, e) ↦ rw (e, recv_select) (recv_case-IsSound pick ctx ref s e)
  ]

  pub send-IsSound :
      (pick : Pick) (ctx : Ctx) (ref : ℕ) (bs : List ℕ) → IsSound (send pick ctx ref bs m).1
  unfolding send
  send-IsSound pick ctx ref bs = elim (Option-cases (get_elem? m.objects ref)) [
    | inl e ↦ rw (e, send) v
    | inr (s, e) ↦ elim (Option-cases (send_gate pick s.cancelled ctx.err)) [
      | inl free ↦ rw (e, send) (rw (free, send) (rwc-IsSound m v _))
      | inr (x, shut) ↦ rw (e, send) (rw (shut, send) v)
    ]
  ]

  pub close_write-IsSound : (t : Moment) (ref : ℕ) → IsSound (close_write t ref m).1
  unfolding close_write
  close_write-IsSound t ref = elim (Option-cases (get_elem? m.objects ref)) [
    | inl e ↦ rw (e, close_write) v
    | inr (s, e) ↦ rw (e, close_write) (rwc-IsSound m v _)
  ]

  pub close-IsSound : (t : Moment) (ref : ℕ) → IsSound (close t ref m).1
  unfolding close
  close-IsSound t ref = elim (Option-cases (get_elem? m.objects ref)) [
    | inl e ↦ rw (e, close) v
    | inr (s, e) ↦
        let os : List Stream = cancel_at ref m.objects in
        let w : IsSound (record m { objects = os }) =
          objects-IsSound m v os (Keeps-cancel_at ref m.objects) in
        rw (e, close) (remove_stream-IsSound _ (rwc-IsSound (record m { objects = os }) w _) s.id)
  ]

  pub close_conn-IsSound : IsSound (close_conn m).1
  unfolding close_conn
  close_conn-IsSound =
      let os : List Stream =
        if m.read_loop_started then cancel_all m.streams m.objects else m.objects in
      rwc-IsSound (record m { objects = os })
        (objects-IsSound m v os (Keeps-cancel_all_if m.read_loop_started m.streams m.objects)) _

  raw_msg_ch-IsSound :
      (c : Chan (List ℕ)) → c.closed ≡ m.raw_msg_ch.closed → IsSound (record m { raw_msg_ch = c })
  raw_msg_ch-IsSound c e = record { entries = v.entries; held = v.held; queues = rw e v.queues }

  accept_ch-IsSound :
      (c : Chan ℕ) → c.closed ≡ m.accept_ch.closed → IsSound (record m { accept_ch = c })
  accept_ch-IsSound c e = record { entries = v.entries; held = v.held; queues = rw e v.queues }

  read_raw-IsSound : (pick : Pick) (ctx : Ctx) → IsSound (after (read_raw pick ctx m) m)
  unfolding read_raw
  read_raw-IsSound ctx_done ctx = elim (Option-cases ctx.err) [
    | inl e ↦ rw (e, read_raw) v
    | inr (x, e) ↦ rw (e, read_raw) v
  ]
  read_raw-IsSound _ ctx = elim (Chan.recv_cases m.raw_msg_ch) [
    | inl (bs, rest, g) ↦ rw (g, read_raw) (raw_msg_ch-IsSound _ refl)
    | inr (inl g) ↦ rw (g, read_raw) v
    | inr (inr g) ↦ rw (g, read_raw) v
  ]

  pub read_data-IsSound : (pick : Pick) (ctx : Ctx) → IsSound (after (read_data pick ctx m) m)
  unfolding read_data
  read_data-IsSound pick ctx =
      either_IsSound m m.read_loop_started (read_raw pick ctx m) _ (read_raw-IsSound pick ctx)
        (rwc-IsSound m v _)

  pub accept_select-IsSound :
      (pick : Pick) (ctx : Ctx) → IsSound (after (accept_select pick ctx m) m)
  unfolding accept_select
  accept_select-IsSound ctx_done ctx = elim (Option-cases ctx.err) [
    | inl e ↦ rw (e, accept_select) v
    | inr (x, e) ↦ rw (e, accept_select) v
  ]
  accept_select-IsSound _ ctx = elim (Chan.recv_cases m.accept_ch) [
    | inl (ref, rest, g) ↦ rw (g, accept_select) (accept_ch-IsSound _ refl)
    | inr (inl g) ↦ rw (g, accept_select) v
    | inr (inr g) ↦ rw (g, accept_select) v
  ]
