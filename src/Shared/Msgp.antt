-- ===== src/Shared/Msgp.antt =====
-- The library github.com/tinylib/msgp, as message_gen.go calls it. It is not part of the repository:
-- its functions are fields, and what the generated code relies on is stated as laws.
use plugo.Prelude.{ℕ, ◌+◌, ◌<◌, ◌≤◌, ◌^◌, ◌≡◌, List, [], ◌∷◌, ◌++◌, String, length}
use plugo.Io.{Failure, Result, ok}
use plugo.Shared.{ℤ, pos, negsuc}

-- What `AppendString`, `AppendInt` and `AppendUint32` append, the constants of `Msgsize`, and
-- `WrapError`.
pub record Msgp : Type 0 where
  pub append_string : List ℕ → List ℕ
  pub append_int : ℤ → List ℕ
  pub append_uint32 : ℕ → List ℕ
  pub string_prefix_size : ℕ
  pub int_size : ℕ
  pub uint32_size : ℕ
  pub wrap_error : Failure → List String → Failure

-- A reader: a `*msgp.Reader` with its methods, or a byte slice with the `…Bytes` functions.
pub record Source (S : Type 0) : Type 0 where
  pub read_map_header : S → Result (ℕ × S)
  pub read_map_key : S → Result (List ℕ × S)
  pub read_string : S → Result (List ℕ × S)
  pub read_int : S → Result (ℤ × S)
  pub read_uint32 : S → Result (ℕ × S)
  pub skip : S → Result (Unit {0} × S)

-- A `*msgp.Writer` with its methods.
pub record Sink (W : Type 0) : Type 0 where
  pub append : List ℕ → W → Result W
  pub write_string : List ℕ → W → Result W
  pub write_int : ℤ → W → Result W
  pub write_uint32 : ℕ → W → Result W

-- A read takes these bytes off the input and returns this value.
pub record Reads {S A : Type 0} (rest : S → List ℕ) (m : S → Result (A × S)) (a : A) (bs : List ℕ)
    : Type 0 where
  pub read :
      (s : S) (after : List ℕ)
      → rest s ≡ bs ++ after
      → (s' : S) × (m s ≡ ok (a, s')) × (rest s' ≡ after)

-- A write goes through and puts these bytes behind what was written.
pub record Writes {W : Type 0} (written : W → List ℕ) (f : W → Result W) (bs : List ℕ)
    : Type 0 where
  pub write : (w : W) → (w' : W) × (f w ≡ ok w') × (written w' ≡ written w ++ bs)

abbrev pub IsInt64 : ℤ → Type 0
IsInt64 (pos n) = n < 2 ^ 63
IsInt64 (negsuc n) = n < 2 ^ 63

-- MessagePack's short forms of a map header and of a string.
abbrev pub map_head : ℕ → List ℕ
map_head n = (0x80 + n) ∷ []

abbrev pub key : List ℕ → List ℕ
key k = (0xa0 + length k) ∷ k

-- What was appended reads back, and the short forms are read.
pub record ReadsBack (lib : Msgp) {S : Type 0} (src : Source S) (rest : S → List ℕ) : Type 0 where
  pub reads_map_header : (n : ℕ) → n < 16 → Reads rest src.read_map_header n (map_head n)
  pub reads_map_key : (k : List ℕ) → length k < 32 → Reads rest src.read_map_key k (key k)
  pub reads_string :
      (v : List ℕ) → length v < 2 ^ 32 → Reads rest src.read_string v (lib.append_string v)
  pub reads_int : (i : ℤ) → IsInt64 i → Reads rest src.read_int i (lib.append_int i)
  pub reads_uint32 : (n : ℕ) → n < 2 ^ 32 → Reads rest src.read_uint32 n (lib.append_uint32 n)

-- A writer that does not fail writes what the functions on slices append.
pub record WritesAlike (lib : Msgp) {W : Type 0} (sink : Sink W) (written : W → List ℕ)
    : Type 0 where
  pub appends : (bs : List ℕ) → Writes written (sink.append bs) bs
  pub writes_string : (v : List ℕ) → Writes written (sink.write_string v) (lib.append_string v)
  pub writes_int : (i : ℤ) → Writes written (sink.write_int i) (lib.append_int i)
  pub writes_uint32 : (n : ℕ) → Writes written (sink.write_uint32 n) (lib.append_uint32 n)

-- The constants bound what is appended.
pub record SizesBound (lib : Msgp) : Type 0 where
  pub string_bound : (v : List ℕ) → length (lib.append_string v) ≤ lib.string_prefix_size + length v
  pub int_bound : (i : ℤ) → length (lib.append_int i) ≤ lib.int_size
  pub uint32_bound : (n : ℕ) → length (lib.append_uint32 n) ≤ lib.uint32_size
