-- ===== src/System/Transfer.antt =====
-- A stream from end to end: what one side sends on it, the other side receives, whole and in order.
use plugo.Chan.{recv_from}
use plugo.Prelude.{
  ℕ, zero, suc, ◌+◌, ◌≤◌, ◌<◌, ◌^◌, ◌≡◌, ◌≢◌, refl, ap, ◌∙◌, ◌++◌, arith, List, [], ◌∷◌, none, some,
  false, length, get_elem?, lookup, nat_eq, append_assoc, append-nil, All, map, set,
  get_elem?-set_self, get_elem?-lt, nat_beq_ne, subst, length-append,
}
use plugo.Io.{ok, Result, refusal}
use plugo.Wire.{StreamFrame}
use plugo.Wire.RoundTrip.{frame_bytes}
use plugo.Conn.{Stream, MessageConn, reading, push_frame}
use plugo.Reader.{channel, returned, waits, loop_turn, push_to, receive, turned, deliver}
use plugo.Chan
use plugo.Stream.{recv_poll}
use plugo.System.{after_turn}
use plugo.System.Writes.{rest_input, loop_turn-frame_bytes}
use plugo.System.Sending.{data_frame, data_bytes, FitsWrite, send_all, CanSend, output-send_all}

abbrev pub with_item : StreamFrame → Stream → Stream
with_item f s = record s { recv_ch = record (s.recv_ch) { items = s.recv_ch.items ++ f ∷ [] } }

abbrev pub data_frames : ℕ → List (List ℕ) → List StreamFrame
data_frames id [] = []
data_frames id (bs ∷ l) = data_frame id bs ∷ data_frames id l

abbrev pub with_queue : List StreamFrame → Stream → Stream
with_queue q s = record s { recv_ch = record (s.recv_ch) { items = q } }

module _ {V : Type 0} where
  -- n acts of the read loop.
  pub turns : ℕ → MessageConn V → MessageConn V
  turns zero m = m
  turns (suc n) m = turns n (after_turn (loop_turn channel m) m)

  -- The receiving side: idle, with an open stream that has frames queued, and bytes to come.
  pub record Receiving (id ref : ℕ) (queue : List StreamFrame) (bytes : List ℕ) (m : MessageConn V)
      : Type 0 where
    pub idle : m.loop ≡ reading
    pub usable : refusal m.rwc ≡ none
    pub incoming : m.rwc.input ≡ bytes
    pub known : lookup id m.streams ≡ some ref
    pub stream : Stream
    pub found : get_elem? m.objects ref ≡ some stream
    pub open_channel : stream.recv_ch.closed ≡ false
    pub wide : stream.recv_ch.capacity ≡ 100
    pub queued : stream.recv_ch.items ≡ queue

  -- The state between the two acts that take a data frame to its stream.
  abbrev pushing : ℕ → ℕ → List ℕ → List ℕ → MessageConn V → MessageConn V
  pushing id ref bs rest m = record m {
    rwc = rest_input rest m.rwc;
    loop = push_frame ref (data_frame id bs);
  }

  abbrev pushed : ℕ → ℕ → List ℕ → List ℕ → Stream → MessageConn V → MessageConn V
  pushed id ref bs rest s m = record m {
    rwc = rest_input rest m.rwc;
    objects = set m.objects ref (with_item (data_frame id bs) s);
    loop = reading;
  }

  module _ (id ref : ℕ) (queue : List StreamFrame) (bs rest : List ℕ) (m : MessageConn V)
      (fits : id < 2 ^ 32) (ne : id ≢ 0) (h : FitsWrite bs) (room : length queue < 100)
      (r : Receiving id ref queue (frame_bytes (data_frame id bs) ++ rest) m) where
    read_turn : loop_turn channel m ≡ turned (pushing id ref bs rest m)
    unfolding receive deliver
    read_turn = rw (
      loop_turn-frame_bytes channel (data_frame id bs) rest m r.idle
          (record { short = h; id_fits = fits; flags_fit = omega arith }) r.usable r.incoming,
      nat_beq_ne id 0 ne,
      r.known,
    )

    push_turn :
        loop_turn channel (pushing id ref bs rest m) ≡ turned (pushed id ref bs rest r.stream m)
    unfolding loop_turn push_to
    push_turn =
        rw (r.found, push_to)
          (rw (Chan.send_room (data_frame id bs) r.stream.recv_ch r.open_channel (ground arith)))

    -- Two acts of the loop put a data frame at the end of its stream's queue.
    receive_data : Receiving id ref (queue ++ data_frame id bs ∷ []) rest (turns 2 m)
    unfolding turns
    receive_data =
        rw (read_turn, turns)
          (rw push_turn (record {
            idle = refl;
            usable = r.usable;
            incoming = refl;
            known = r.known;
            stream = with_item (data_frame id bs) r.stream;
            found =
                get_elem?-set_self m.objects ref _ (get_elem?-lt m.objects ref r.stream r.found);
            open_channel = r.open_channel;
            wide = r.wide;
            queued = ap (λ l. l ++ data_frame id bs ∷ []) r.queued;
          }))

  -- Two acts of the loop, n times.
  pub rounds : ℕ → MessageConn V → MessageConn V
  unfolding turns
  rounds zero m = m
  rounds (suc n) m = rounds n (turns 2 m)

  rounds-Receiving :
      (id ref : ℕ) (queue : List StreamFrame) (l : List (List ℕ)) (rest : List ℕ)
      (m : MessageConn V)
      → id < 2 ^ 32
      → id ≢ 0
      → All FitsWrite l
      → length queue + length l ≤ 100
      → Receiving id ref queue (data_bytes id l ++ rest) m
      → Receiving id ref (queue ++ data_frames id l) rest (rounds (length l) m)
  unfolding rounds
  rounds-Receiving id ref queue [] rest m fits ne h room r = rw (append-nil queue) r
  rounds-Receiving id ref queue (bs ∷ l) rest m fits ne h room r =
      subst (λ q. Receiving id ref q rest (rounds (length l) (turns 2 m)))
        (append_assoc queue (data_frame id bs ∷ []) (data_frames id l))
        (rounds-Receiving id ref (queue ++ data_frame id bs ∷ []) l rest (turns 2 m) fits ne h.1
          (omega (arith, length-append queue (data_frame id bs ∷ [])))
          (receive_data id ref queue bs (data_bytes id l ++ rest) m fits ne h.0 (omega arith)
            (rw (append_assoc (frame_bytes (data_frame id bs)) (data_bytes id l) rest) at r)))

  -- The results of n calls of `Recv` that find a frame at once.
  pub recv_all : ℕ → ℕ → MessageConn V → List (Result (List ℕ))
  recv_all zero ref m = []
  recv_all (suc n) ref m = elim (recv_poll ref m) [
    | returned r m' ↦ r ∷ recv_all n ref m'
    | waits ↦ []
  ]

  pub recv_poll_queued :
      (id ref : ℕ) (bs : List ℕ) (queue : List StreamFrame) (m : MessageConn V) (s : Stream)
      → get_elem? m.objects ref ≡ some s
      → s.recv_ch.items ≡ data_frame id bs ∷ queue
      → recv_poll ref m
        ≡ returned (ok bs) (record m { objects = set m.objects ref (with_queue queue s) })
  unfolding recv_poll
  recv_poll_queued id ref bs queue m s e q = rw (e, recv_poll) (rw (q, recv_from))

  recv_all_queued :
      (id ref : ℕ) (l : List (List ℕ)) (m : MessageConn V) (s : Stream)
      → get_elem? m.objects ref ≡ some s
      → s.recv_ch.items ≡ data_frames id l
      → recv_all (length l) ref m ≡ map ok l
  unfolding recv_all
  recv_all_queued id ref [] m s e q = refl
  recv_all_queued id ref (bs ∷ l) m s e q =
      rw (recv_poll_queued id ref bs (data_frames id l) m s e q, recv_all)
        (ap (◌∷◌ (ok bs)) (
          recv_all_queued id ref l
            (record m { objects = set m.objects ref (with_queue (data_frames id l) s) })
            (with_queue (data_frames id l) s)
            (get_elem?-set_self m.objects ref _ (get_elem?-lt m.objects ref s e)) refl))

  -- What one side sends on a stream of a working link, the other side receives on its stream of the
  -- same id: the same payloads, in the same order, whatever was written before, if they fit the stream's
  -- queue of 100 and 4 GiB each. The receiving loop needs two acts for each payload, and stands at the
  -- first byte behind them.
  pub recv_all-send_all :
      (id there here : ℕ) (l : List (List ℕ)) (a b : MessageConn V)
      → id < 2 ^ 32
      → id ≢ 0
      → All FitsWrite l
      → length l ≤ 100
      → CanSend id there a
      → a.rwc.output ≡ []
      → Receiving id here [] (send_all there l a).rwc.output b
      → (recv_all (length l) here (rounds (length l) b) ≡ map ok l)
        × ((rounds (length l) b).rwc.input ≡ [])
  recv_all-send_all id there here l a b fits ne h room c e r =
      let sent_bytes : (send_all there l a).rwc.output ≡ data_bytes id l ++ [] =
        output-send_all id there l a fits c h ∙ rw (e, append-nil (data_bytes id l)) in
      let after : Receiving id here (data_frames id l) [] (rounds (length l) b) =
        rounds-Receiving id here [] l [] b fits ne h (omega arith) (rw sent_bytes at r) in
      (
        recv_all_queued id here l (rounds (length l) b) after.stream after.found after.queued,
        after.incoming,
      )
