-- ===== src/Tests.antt =====
-- Concrete connections, codecs and systems, on which the theorems are applied.
pub mod Streams
pub mod Handshake
pub mod Launches
pub mod Ends
pub mod Encoding
pub mod Messages
pub mod Clients
pub mod Plugins
pub mod Replies
pub mod Exchanges
pub mod Rests
use plugo.Prelude.{
  ℕ, true, false, List, [], ◌∷◌, none, String, if◌then◌else◌, ◌==◌, string_eq, nat_eq,
}
use plugo.Io.{Result, ok, fail, eof, text, Rwc, never}
use plugo.Codec.{Codec}
use plugo.Negotiate.{Json}

-- A working link with nothing to read yet.
abbrev pub link : Rwc
link = record {
  input = [];
  ended = eof;
  output = [];
  fault = none;
  has_deadline = true;
  deadline = never;
  closed = false;
}

abbrev pub first_byte : List ℕ → Result ℕ
first_byte (b ∷ []) = ok b
first_byte _ = fail (text "not a byte")

-- A codec for numbers, one byte each.
abbrev pub byte_codec : String → Codec ℕ
byte_codec s = record { name = s; marshal = λ n. ok (n ∷ []); unmarshal = first_byte }

abbrev code : String → ℕ
code s = if s == "json" then 1 else if s == "gob" then 2 else 3

abbrev name_of : ℕ → String
name_of n = if n == 1 then "json" else if n == 2 then "gob" else "msgp"

abbrev codes : List String → List ℕ
codes [] = []
codes (s ∷ ss) = code s ∷ codes ss

abbrev names_of : List ℕ → List String
names_of [] = []
names_of (n ∷ ns) = name_of n ∷ names_of ns

abbrev single_name : List ℕ → Result String
single_name (n ∷ []) = ok (name_of n)
single_name _ = fail (text "not one name")

-- An encoding of the two handshake structs, one byte for a name.
abbrev pub byte_json : Json
byte_json = record {
  encode_request = λ ss. ok (codes ss);
  decode_request = λ bs. ok (names_of bs);
  encode_response = λ s. ok (code s ∷ []);
  decode_response = single_name;
}
