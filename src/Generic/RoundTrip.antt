-- ===== src/Generic/RoundTrip.antt =====
-- Values over a typed stream, from one end to the other.
use plugo.Prelude.{ℕ, ◌≡◌, refl, ap, List, [], ◌∷◌, All}
use plugo.Io.{ok}
use plugo.Codec.{Codec}
use plugo.Generic.{encode_all, decode_all}

module _ {V : Type 0} (c : Codec V) where
  -- The codec takes a value back from the bytes that it made of it.
  abbrev pub RoundTrips : V → Type 0
  RoundTrips v = (bs : List ℕ) × (c.marshal v ≡ ok bs) × (c.unmarshal bs ≡ ok v)

  -- If the codec takes back every value of a list, then the goroutines that marshal a route's requests
  -- and unmarshal them on the other side drop nothing and keep the order.
  pub decode_all-encode_all : (l : List V) → All RoundTrips l → decode_all c (encode_all c l) ≡ l
  unfolding decode_all encode_all
  decode_all-encode_all [] h = refl
  decode_all-encode_all (v ∷ l) ((bs, e, d), h) =
      rw e (rw d (ap (◌∷◌ v) (decode_all-encode_all l h)))
