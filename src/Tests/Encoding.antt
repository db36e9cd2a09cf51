-- ===== src/Tests/Encoding.antt =====
-- A concrete encoding for the messages of examples/shared, and the laws for it.
use plugo.Prelude.{
  zero, suc, length-append, true, ◌≤◌, ℕ, ◌+◌, ◌-◌, ◌≡◌, refl, arith, List, [], ◌∷◌, ◌++◌, String,
  if◌then◌else◌, leb, length, take, drop, take-length-append, drop-length-append,
}
use plugo.Io.{Failure, eof, unexpected_eof, text, wrapped, Result, ok, fail}
use plugo.Shared.{ℤ, pos, negsuc}
use plugo.Shared.Msgp.{Msgp, Source, Sink, Reads, ReadsBack, WritesAlike, SizesBound, map_head, key}

abbrev failed_at : Failure → List String → Failure
failed_at e [] = e
failed_at e (s ∷ path) = wrapped s (failed_at e path)

abbrev int_bytes : ℤ → List ℕ
int_bytes (pos n) = 0 ∷ n ∷ []
int_bytes (negsuc n) = 1 ∷ n ∷ []

-- A text behind its length, a number in one place.
abbrev pub counted_msgp : Msgp
counted_msgp = record {
  append_string = λ v. length v ∷ v;
  append_int = int_bytes;
  append_uint32 = λ n. n ∷ [];
  string_prefix_size = 5;
  int_size = 9;
  uint32_size = 5;
  wrap_error = failed_at;
}

abbrev counted : ℕ → List ℕ → Result (List ℕ × List ℕ)
counted n l = if leb n (length l) then ok (take n l, drop n l) else fail unexpected_eof

abbrev header : List ℕ → Result (ℕ × List ℕ)
header [] = fail eof
header (b ∷ l) = if leb 0x80 b then ok (b - 0x80, l) else fail (text "not a map")

abbrev map_key : List ℕ → Result (List ℕ × List ℕ)
map_key [] = fail eof
map_key (b ∷ l) = if leb 0xa0 b then counted (b - 0xa0) l else fail (text "not a key")

abbrev string : List ℕ → Result (List ℕ × List ℕ)
string [] = fail eof
string (n ∷ l) = counted n l

abbrev int : List ℕ → Result (ℤ × List ℕ)
int (zero ∷ n ∷ l) = ok (pos n, l)
int (suc b ∷ n ∷ l) = ok (negsuc n, l)
int l = fail (text "not an int")

abbrev uint32 : List ℕ → Result (ℕ × List ℕ)
uint32 [] = fail eof
uint32 (n ∷ l) = ok (n, l)

abbrev skip_one : List ℕ → Result (Unit {0} × List ℕ)
skip_one [] = fail eof
skip_one (b ∷ l) = ok (tt, l)

abbrev pub slices : Source (List ℕ)
slices = record {
  read_map_header = header;
  read_map_key = map_key;
  read_string = string;
  read_int = int;
  read_uint32 = uint32;
  skip = skip_one;
}

abbrev pub buffer : Sink (List ℕ)
buffer = record {
  append = λ bs w. ok (w ++ bs);
  write_string = λ v w. ok (w ++ (length v ∷ v));
  write_int = λ i w. ok (w ++ int_bytes i);
  write_uint32 = λ n w. ok (w ++ n ∷ []);
}

leb-true : (a b : ℕ) → a ≤ b → leb a b ≡ true
leb-true a b h = ground arith

add_sub : (a b : ℕ) → a + b - a ≡ b
add_sub a b = omega arith

counted-append : (v after : List ℕ) → counted (length v) (v ++ after) ≡ ok (v, after)
counted-append v after =
    rw (leb-true (length v) (length (v ++ after)) (omega (arith, length-append v after)))
      (rw (take-length-append v after) (rw (drop-length-append v after) refl))

map_head-Reads : (n : ℕ) → Reads (λ l. l) header n (map_head n)
map_head-Reads n = record {
  read = λ s after e.
      (after, rw e (rw (leb-true 0x80 (0x80 + n) (omega arith)) (rw (add_sub 0x80 n) refl)), refl);
}

key-Reads : (k : List ℕ) → Reads (λ l. l) map_key k (key k)
key-Reads k = record {
  read = λ s after e. (
    after,
    rw e (
        rw (leb-true 0xa0 (0xa0 + length k) (omega arith))
          (rw (add_sub 0xa0 (length k)) (counted-append k after))),
    refl,
  );
}

string-Reads : (v : List ℕ) → Reads (λ l. l) string v (length v ∷ v)
string-Reads v = record { read = λ s after e. (after, rw e (counted-append v after), refl) }

int-Reads : (i : ℤ) → Reads (λ l. l) int i (int_bytes i)
int-Reads (pos n) = record { read = λ s after e. (after, rw e refl, refl) }
int-Reads (negsuc n) = record { read = λ s after e. (after, rw e refl, refl) }

pub slices_read_back : ReadsBack counted_msgp slices (λ l. l)
slices_read_back = record {
  reads_map_header = λ n h. map_head-Reads n;
  reads_map_key = λ k h. key-Reads k;
  reads_string = λ v h. string-Reads v;
  reads_int = λ i h. int-Reads i;
  reads_uint32 = λ n h. record { read = λ s after e. (after, rw e refl, refl) };
}

pub buffer-WritesAlike : WritesAlike counted_msgp buffer (λ w. w)
buffer-WritesAlike = record {
  appends = λ bs. record { write = λ w. (_, refl, refl) };
  writes_string = λ v. record { write = λ w. (_, refl, refl) };
  writes_int = λ i. record { write = λ w. (_, refl, refl) };
  writes_uint32 = λ n. record { write = λ w. (_, refl, refl) };
}

int_size_bound : (i : ℤ) → length (int_bytes i) ≤ 9
int_size_bound (pos n) = omega arith
int_size_bound (negsuc n) = omega arith

pub sizes_bound : SizesBound counted_msgp
sizes_bound = record {
  string_bound = λ v. omega arith;
  int_bound = int_size_bound;
  uint32_bound = λ n. omega arith;
}
