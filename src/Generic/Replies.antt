-- ===== src/Generic/Replies.antt =====
-- A typed SingleMulti handler's responses, from the plugin's goroutine to the host's `Recv`.
use plugo.Prelude.{
  ℕ, ◌<◌, ◌≤◌, ◌^◌, ◌≡◌, ◌≢◌, refl, sym, ap, subst, ◌∙◌, fun_ext, List, [], ◌∷◌, some, length,
  get_elem?, map, All, suc,
}
use plugo.Io.{ok, fail, panics, Done}
use plugo.Codec.{Codec}
use plugo.Talk.{respond}
use plugo.Conn.{MessageConn}
use plugo.Generic.{TypedSender, returns, sends, encode_all, lower, decode_response}
use plugo.Generic.RoundTrip.{RoundTrips}
use plugo.System.Sending.{FitsWrite, CanSend, send_all, output-send_all}
use plugo.System.Transfer.{Receiving, rounds, recv_all, recv_all-send_all}
use plugo.System.Replying.{sender_of, turns, output-respond}

module _ {V : Type 0} where
  -- A handler that sends these responses, and returns where a send fails.
  unfoldable pub typed_sender_of : List V → TypedSender V
  typed_sender_of [] ds = returns (ok tt)
  typed_sender_of (v ∷ l) [] = sends v
  typed_sender_of (v ∷ l) (ok _ ∷ ds) = typed_sender_of l ds
  typed_sender_of (v ∷ l) (fail e ∷ ds) = returns (fail e)
  typed_sender_of (v ∷ l) (panics ∷ ds) = returns panics

module _ {V : Type 0} (c : Codec V) where
  lower-sender_of :
      (l : List V) (ds : List Done)
      → All (RoundTrips c) l
      → lower c (typed_sender_of l) ds ≡ sender_of (encode_all c l) ds
  unfolding lower typed_sender_of sender_of encode_all
  lower-sender_of [] ds h = refl
  lower-sender_of (v ∷ l) [] ((bs, e, d), h) = rw e refl
  lower-sender_of (v ∷ l) (ok x ∷ ds) ((bs, e, d), h) = rw e (lower-sender_of l ds h)
  lower-sender_of (v ∷ l) (fail x ∷ ds) ((bs, e, d), h) = rw e refl
  lower-sender_of (v ∷ l) (panics ∷ ds) ((bs, e, d), h) = rw e refl

  length-encode_all : (l : List V) → All (RoundTrips c) l → length (encode_all c l) ≡ length l
  unfolding encode_all
  length-encode_all [] h = refl
  length-encode_all (v ∷ l) ((bs, e, d), h) = rw e (ap suc (length-encode_all l h))

  decode-encode_all :
      (l : List V)
      → All (RoundTrips c) l
      → map (decode_response c) (map ok (encode_all c l)) ≡ map ok l
  unfolding encode_all
  decode-encode_all [] h = refl
  decode-encode_all (v ∷ l) ((bs, e, d), h) = rw e (rw d (ap (◌∷◌ (ok v)) (decode-encode_all l h)))

  -- Of a typed SingleMulti handler that sends any values that the codec takes back, at most 100 and each
  -- short enough for a frame, on a working connection that has written nothing else: the goroutine's calls
  -- write what the other side of the link, whose stream of the same id is open and empty, receives with two
  -- acts of its read loop for each, and unmarshals to the same values in the same order.
  pub decode_response-lower :
      (id there here i : ℕ) (l : List V) (a b : MessageConn V)
      → id < 2 ^ 32
      → id ≢ 0
      → All (RoundTrips c) l
      → All FitsWrite (encode_all c l)
      → length l ≤ 100
      → CanSend id there a
      → a.rwc.output ≡ []
      → get_elem? a.tasks i ≡ some (there, respond (lower c (typed_sender_of l)))
      → Receiving id here [] (turns (length l) i a).rwc.output b
      → map (decode_response c) (recv_all (length l) here (rounds (length l) b)) ≡ map ok l
  decode_response-lower id there here i l a b fits ne h short room can empty e r =
      let bss = encode_all c l in
      let count : length bss ≡ length l = length-encode_all l h in
      let talk : get_elem? a.tasks i ≡ some (there, respond (sender_of bss)) =
        e ∙ ap (λ s. some (there, respond s)) (fun_ext (λ ds. lower-sender_of l ds h)) in
      let replied = (output-respond id there i bss a fits can short talk).0 in
      let sent : (turns (length l) i a).rwc.output ≡ (send_all there bss a).rwc.output =
        subst (λ n. (turns n i a).rwc.output ≡ (send_all there bss a).rwc.output) count
          (replied ∙ sym (output-send_all id there bss a fits can short)) in
      let got =
        (recv_all-send_all id there here bss a b fits ne short
          (subst (λ n. n ≤ 100) (sym count) room) can empty
          (subst (λ o. Receiving id here [] o b) sent r)).0 in
      subst (λ n. map (decode_response c) (recv_all n here (rounds n b)) ≡ map ok l) count
        (ap (map (decode_response c)) got ∙ decode-encode_all l h)
