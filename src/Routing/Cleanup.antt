-- ===== src/Routing/Cleanup.antt =====
-- A call on a route that fails leaves no stream behind.
use plugo.Prelude.{
  ℕ, ◌+◌, ◌≡◌, refl, sym, List, [], ◌∷◌, ◌++◌, Option, none, some, arith, length, get_elem?, lookup,
  delete, insert, Option-cases, inl, inr, nat_eq, nat_beq_iff, lookup-delete,
  get_elem?-append_length, subst,
}
use plugo.Io.{Failure, ok, fail, panics, Done}
use plugo.Context.{Ctx, Moment}
use plugo.Conn.{
  Stream, MessageConn, fresh_stream, start_stream, reserve_id, register_stream, announce,
  after_announce, write_stream_frame, remove_stream,
}
use plugo.Wire.{StreamFrame, stream_mode_single_multi, u32}
use plugo.Reader.{Pick}
use plugo.Stream.{send, close_write, close}
use plugo.Routing.{CallCtx, call_single_multi, end_request, close_request, send_request}

abbrev HasId : ℕ → Option Stream → Type 0
HasId id none = ⊥
HasId id (some s) = s.id ≡ id

HasId-fresh :
    (id : ℕ) (os : List Stream) → HasId id (get_elem? (os ++ fresh_stream id ∷ []) (length os))
HasId-fresh id os = rw (get_elem?-append_length os (fresh_stream id) []) refl

lookup-delete_same : (k j : ℕ) (l : List (ℕ × ℕ)) → j ≡ k → lookup k (delete j l) ≡ none
lookup-delete_same k j l h = ground (arith, lookup-delete j k l, nat_beq_iff j k)

module _ {V : Type 0} where
  lookup-remove_stream :
      (id : ℕ) (m : MessageConn V) → lookup id (remove_stream id m).streams ≡ none
  unfolding remove_stream
  lookup-remove_stream id m = lookup-delete_same id id m.streams refl

  lookup-close :
      (t : Moment) (id ref : ℕ) (m : MessageConn V)
      → HasId id (get_elem? m.objects ref)
      → lookup id (close t ref m).1.streams ≡ none
  unfolding close write_stream_frame remove_stream
  lookup-close t id ref m h = elim (Option-cases (get_elem? m.objects ref)) [
    | inl e ↦ absurd (rw e at h)
    | inr (s, e) ↦ rw (e, close) (lookup-delete_same id s.id m.streams (rw e at h))
  ]

  objects-send :
      (pick : Pick) (ctx : Ctx) (ref : ℕ) (bs : List ℕ) (m : MessageConn V)
      → (send pick ctx ref bs m).1.objects ≡ m.objects
  unfolding send write_stream_frame
  objects-send pick ctx ref bs m = ground arith

  objects-close_write :
      (t : Moment) (ref : ℕ) (m : MessageConn V) → (close_write t ref m).1.objects ≡ m.objects
  unfolding close_write write_stream_frame
  objects-close_write t ref m = ground arith

  module _ (calls : CallCtx) (id ref : ℕ) (e : Failure) where
    end_request-fail :
        (x : Done × MessageConn V)
        → HasId id (get_elem? x.1.objects ref)
        → (end_request calls ref x).0 ≡ fail e
        → lookup id (end_request calls ref x).1.streams ≡ none
    end_request-fail (ok _, m) h p = cc
    end_request-fail (fail f, m) h p = lookup-close calls.at_close id ref m h
    end_request-fail (panics, m) h p = cc

    close_request-fail :
        (x : Done × MessageConn V)
        → HasId id (get_elem? x.1.objects ref)
        → (close_request calls ref x).0 ≡ fail e
        → lookup id (close_request calls ref x).1.streams ≡ none
    close_request-fail (ok _, m) h p =
        end_request-fail (close_write calls.at_close_write ref m)
          (subst (λ os. HasId id (get_elem? os ref))
            (sym (objects-close_write calls.at_close_write ref m)) h)
          p
    close_request-fail (fail f, m) h p = lookup-close calls.at_close id ref m h
    close_request-fail (panics, m) h p = cc

    send_request-fail :
        (req : List ℕ) (m : MessageConn V)
        → HasId id (get_elem? m.objects ref)
        → (send_request calls req (ok ref, m)).0 ≡ fail e
        → lookup id (send_request calls req (ok ref, m)).1.streams ≡ none
    send_request-fail req m h p =
        close_request-fail (send calls.pick calls.at_send ref req m)
          (subst (λ os. HasId id (get_elem? os ref))
            (sym (objects-send calls.pick calls.at_send ref req m)) h)
          p

  objects-write_stream_frame :
      (ctx : Ctx) (f : StreamFrame) (m : MessageConn V)
      → (write_stream_frame ctx f m).1.objects ≡ m.objects
  unfolding write_stream_frame
  objects-write_stream_frame ctx f m = refl

  module _ (calls : CallCtx) (id ref : ℕ) (e : Failure) (req : List ℕ) where
    -- Behind the start frame's write.
    announced-fail :
        (x : Done × MessageConn V)
        → HasId id (get_elem? x.1.objects ref)
        → (send_request calls req (after_announce id ref x)).0 ≡ fail e
        → lookup id (send_request calls req (after_announce id ref x)).1.streams ≡ none
    announced-fail (ok _, m) h p = send_request-fail calls id ref e req m h p
    announced-fail (fail f, m) h p = lookup-remove_stream id m
    announced-fail (panics, m) h p = cc

  -- The connection with the new stream in it.
  abbrev opened : MessageConn V → MessageConn V
  opened m = record m {
    next_stream_id = u32 (m.next_stream_id + 2);
    objects = m.objects ++ fresh_stream m.next_stream_id ∷ [];
    streams = insert m.next_stream_id (length m.objects) m.streams;
  }

  start_stream-running :
      (ctx : Ctx) (route : List ℕ) (mode : ℕ) (m : MessageConn V)
      → m.read_loop_err ≡ none
      → start_stream ctx route mode m
        ≡ announce ctx m.next_stream_id route mode (length m.objects) (opened m)
  unfolding start_stream reserve_id register_stream
  start_stream-running ctx route mode m h = rw (h, reserve_id) refl

  -- While the read loop runs, a `CallSingleMulti` that fails, be it at the start frame, at the request
  -- or at the end of the requests, leaves no stream under the id that it took.
  pub call_single_multi-fail :
      (calls : CallCtx) (route req : List ℕ) (m : MessageConn V) (e : Failure)
      → m.read_loop_err ≡ none
      → (call_single_multi calls route req m).0 ≡ fail e
      → lookup m.next_stream_id (call_single_multi calls route req m).1.streams ≡ none
  unfolding call_single_multi announce write_stream_frame
  call_single_multi-fail calls route req m e running p =
      let start = start_stream-running calls.at_start route stream_mode_single_multi m running in
      rw (start, call_single_multi)
        (announced-fail calls m.next_stream_id (length m.objects) e req _
          (HasId-fresh m.next_stream_id m.objects) (rw (start, call_single_multi) at p))
