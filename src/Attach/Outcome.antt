-- ===== src/Attach/Outcome.antt =====
-- Which connection a plugin takes, and what becomes of it.
use plugo.Prelude.{ℕ, ◌≡◌, ◌≢◌, List, Option, none, some, Bool, true, arith, refl, ◌⊎◌, inl, inr}
use plugo.Io.{Failure, Result, ok, fail, panics, Rwc, close}
use plugo.Codec.{Codec}
use plugo.Conn.{MessageConn}
use plugo.Pipe.{as_rwc}
use plugo.Negotiate.{Json, Ctxs, negotiate_from_plugin_to_host}
use plugo.Attach.{Host, parse_uint, find_connection, close_on_error, attaching}

-- The pipes are taken if both variables hold numbers other than 0.
pub find_connection-pipes :
    (h : Host) (a b : ℕ)
    → parse_uint h.pipe_read ≡ some a
    → parse_uint h.pipe_write ≡ some b
    → a ≢ 0
    → b ≢ 0
    → find_connection h ≡ ok (as_rwc (record { r = h.new_file a; w = h.new_file b }))
unfolding find_connection
find_connection-pipes h a b e f p q = ground arith

Result-cases :
    {A : Type 0} (x : Result A)
    → ((a : A) × (x ≡ ok a)) ⊎ (((e : Failure) × (x ≡ fail e)) ⊎ (x ≡ panics))
Result-cases (ok a) = inl (a, refl)
Result-cases (fail e) = inr (inl (e, refl))
Result-cases panics = inr (inr refl)

-- A connection that was made is closed.
abbrev pub is_released : Option Rwc → Bool
is_released none = true
is_released (some r) = r.closed

module _ {V : Type 0} where
  close_on_error-fail :
      (x : Result (MessageConn V) × Rwc) (e : Failure)
      → (close_on_error x).0 ≡ fail e
      → (close_on_error x).1.closed ≡ true
  unfolding close_on_error close
  close_on_error-fail (ok m, r) e p = cc
  close_on_error-fail (fail f, r) e p = ground arith
  close_on_error-fail (panics, r) e p = cc

  -- A plugin that could not attach, for whatever reason, leaves no connection open.
  pub attaching-fail :
      (json : Json) (cs : Ctxs) (codecs : List (Codec V)) (h : Host) (e : Failure)
      → (attaching json cs codecs h).0 ≡ fail e
      → is_released (attaching json cs codecs h).1 ≡ true
  unfolding attaching
  attaching-fail json cs codecs h e p = elim (Result-cases (find_connection h)) [
    | inl (rwc, f) ↦
        rw (f, attaching)
          (close_on_error-fail (negotiate_from_plugin_to_host json cs codecs rwc) e
            (rw (f, attaching) at p))
    | inr (inl (x, f)) ↦ rw (f, attaching) refl
    | inr (inr f) ↦ rw (f, attaching) refl
  ]
