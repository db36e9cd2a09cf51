-- ===== src/Runner/Echo/Ends.antt =====
-- The end of the Bidi route's goroutine: a failed receive or a failed send, the close and the return.
use plugo.Prelude.{ℕ, ◌≡◌, List}
use plugo.Io.{Failure, ok, fail}
use plugo.Codec.{Codec}
use plugo.Wire.{StreamFrame}
use plugo.Conn.{Stream}
use plugo.System.Sending.{data_frame}
use plugo.System.Endings.{close_frame}
use plugo.Runner.{PluginConfig, Values, processed}

-- How the requests end: by the peer's close frame, or by a request, its value, and the error of the codec
-- for its response.
pub data Ending (V : Type 0) : Type 0 where
  peer_closes : Ending V
  unsendable : List ℕ → V → Failure → Ending V

abbrev pub last_frame : {V : Type 0} → ℕ → Ending V → StreamFrame
last_frame id peer_closes = close_frame id
last_frame id (unsendable raw v e) = data_frame id raw

-- The handler's calls from then on.
abbrev pub last_calls : {V : Type 0} → Ending V → ℕ
last_calls peer_closes = 2
last_calls (unsendable raw v e) = 3

module _ {V : Type 0} (values : Values V) (cfg : PluginConfig) (c : Codec V) where
  abbrev pub IsEnding : Ending V → Type 0
  IsEnding peer_closes = Unit
  IsEnding (unsendable raw v e) =
      (c.unmarshal raw ≡ ok v) × (c.marshal (processed values cfg v) ≡ fail e)
