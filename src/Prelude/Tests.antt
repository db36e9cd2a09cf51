-- ===== src/Prelude/Tests.antt =====
-- Boolean tests on the native numbers and on texts, and the conditional.
use Prim.Native.Nat.{ℕ, compare, Ordering, suc}
use Prim.Native.String.{String}
use mathlib.Core.Path.{◌≡◌, refl}
use mathlib.Core.Logic.{◌↔◌, ◌⊎◌, inl, inr, ◌≢◌}
use mathlib.Core.Bool.{Bool, true, false, ◌&&◌}
use mathlib.Core.Option.{Option, none, some}
use mathlib.Core.List.{List, [], ◌∷◌}
use native.Mathlib.Omega.{arith}
use text.Mathlib.Text.{◌==◌ as str_eq}
use text.Mathlib.TextEquality.{eq_iff}

abbrev pub ltb : ℕ → ℕ → Bool
ltb a b = elim (compare a b) [ Ordering.lt ↦ true | _ ↦ false ]

abbrev pub leb : ℕ → ℕ → Bool
leb a b = elim (compare a b) [ Ordering.gt ↦ false | _ ↦ true ]

abbrev pub nat_beq : ℕ → ℕ → Bool
nat_beq a b = elim (compare a b) [ Ordering.eq ↦ true | _ ↦ false ]

infix 1 if◌then◌else◌
abbrev pub if◌then◌else◌ {ℓ} : {A : Type ℓ} → Bool → A → A → A
if true then x else y = x
if false then x else y = y

pub Bool-cases : (b : Bool) → (b ≡ true) ⊎ (b ≡ false)
Bool-cases true = inl refl
Bool-cases false = inr refl

pub Option-cases {ℓ} : {A : Type ℓ} (o : Option A) → (o ≡ none) ⊎ ((a : A) × (o ≡ some a))
Option-cases none = inl refl
Option-cases (some a) = inr (a, refl)

pub none_ne_some {ℓ} : {A : Type ℓ} {a : A} → none ≡ some a → ⊥
none_ne_some e = cc

pub some_eq {ℓ} : {A : Type ℓ} {a b : A} → some a ≡ some b → a ≡ b
some_eq e = cc

pub nat_eq_or_ne : (a b : ℕ) → (a ≡ b) ⊎ (a ≢ b)
nat_eq_or_ne a b = ground arith

pub nat_beq_iff : (a b : ℕ) → (nat_beq a b ≡ true) ↔ (a ≡ b)
nat_beq_iff a b = ground arith

-- Equality of the keys of Go's maps: numbers, texts, byte strings.
pub record Key {ℓ} (K : Type ℓ) : Type ℓ where
  pub same : K → K → Bool
  pub same_iff : (k j : K) → (same k j ≡ true) ↔ (k ≡ j)

infix 50 ◌==◌
abbrev pub ◌==◌ {ℓ} : {K : Type ℓ} ⦃keys : Key K⦄ → K → K → Bool
◌==◌ ⦃keys⦄ k j = keys.same k j

instance abbrev pub nat_eq : Key ℕ
nat_eq = record { same = nat_beq; same_iff = nat_beq_iff }

instance abbrev pub string_eq : Key String
string_eq = record { same = str_eq; same_iff = eq_iff }

abbrev pub bytes_beq : List ℕ → List ℕ → Bool
bytes_beq [] [] = true
bytes_beq [] (y ∷ ys) = false
bytes_beq (x ∷ xs) [] = false
bytes_beq (x ∷ xs) (y ∷ ys) = nat_beq x y && bytes_beq xs ys

bytes_beq_sound : (xs ys : List ℕ) → bytes_beq xs ys ≡ true → xs ≡ ys
bytes_beq_sound [] [] h = refl
bytes_beq_sound [] (y ∷ ys) h = ground arith
bytes_beq_sound (x ∷ xs) [] h = ground arith
bytes_beq_sound (x ∷ xs) (y ∷ ys) h = ground (arith, bytes_beq_sound xs ys)

bytes_beq_refl : (xs : List ℕ) → bytes_beq xs xs ≡ true
bytes_beq_refl [] = refl
bytes_beq_refl (x ∷ xs) = ground (arith, bytes_beq_refl xs)

bytes_beq_complete : (xs ys : List ℕ) → xs ≡ ys → bytes_beq xs ys ≡ true
bytes_beq_complete xs ys e = ground (arith, bytes_beq_refl xs)

pub bytes_beq_iff : (xs ys : List ℕ) → (bytes_beq xs ys ≡ true) ↔ (xs ≡ ys)
bytes_beq_iff xs ys = (bytes_beq_sound xs ys, bytes_beq_complete xs ys)

instance abbrev pub bytes_eq : Key (List ℕ)
bytes_eq = record { same = bytes_beq; same_iff = bytes_beq_iff }

pub same_ne {ℓ} : {K : Type ℓ} ⦃keys : Key K⦄ (k j : K) → k ≢ j → (k == j) ≡ false
same_ne ⦃keys⦄ k j h = elim (Bool-cases (keys.same k j)) [
  | inl e ↦ absurd (h ((keys.same_iff k j).0 e))
  | inr e ↦ e
]

pub same_self {ℓ} : {K : Type ℓ} ⦃keys : Key K⦄ (k : K) → (k == k) ≡ true
same_self ⦃keys⦄ k = (keys.same_iff k k).1 refl

pub suc_beq_zero : (n : ℕ) → nat_beq (suc n) 0 ≡ false
suc_beq_zero n = ground arith

pub nat_beq_ne : (a b : ℕ) → a ≢ b → nat_beq a b ≡ false
nat_beq_ne a b h = ground arith
