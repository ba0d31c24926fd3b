-- ===== src/Prelude/Text.antt =====
-- Text as a list of code points, and decimal numerals.
use Prim.Native.Nat.{ℕ, zero, suc, ◌+◌, ◌-◌, ◌*◌, ◌/◌, ◌%◌, ◌<◌}
use Prim.Native.Char.{code}
use Prim.Native.String.{String}
use mathlib.Core.Path.{◌≡◌, refl}
use mathlib.Core.Bool.{Bool, true, ◌&&◌}
use mathlib.Core.Logic.{inl, inr}
use mathlib.Core.List.{List, [], ◌∷◌, foldl}
use native.Mathlib.Omega.{arith}
use veltix.Prelude.Tests.{leb, ltb, if◌then◌else◌, Bool-cases}
use veltix.Prelude.Lists.{All}

abbrev pub Text : Type 0
Text = List ℕ

-- The code points of a literal.
abbrev pub codes : String → Text
codes String.[] = []
codes (String.◌∷◌ c s) = code c ∷ codes s

-- [0-9]
abbrev pub is_digit : ℕ → Bool
is_digit c = leb 48 c && leb c 57

digits : ℕ → ℕ → Text → Text
digits zero n acc = acc
digits (suc f) n acc =
    let rest = digits f (n / 10) ((48 + n % 10) ∷ acc) in
    if ltb n 10 then (48 + n % 10) ∷ acc else rest

-- f"{n}"
unfoldable pub decimal : ℕ → Text
unfolding digits
decimal n = digits (suc n) n []

abbrev pub read_from : ℕ → Text → ℕ
read_from = foldl (λ acc c. acc * 10 + (c - 48))

read_from-digits : (f n : ℕ) (acc : Text) → n < f → read_from 0 (digits f n acc) ≡ read_from n acc
unfolding digits
read_from-digits zero n acc h = absurd (omega arith)
read_from-digits (suc f) n acc h = ground (arith, read_from-digits f (n / 10) ((48 + n % 10) ∷ acc))

pub read_from-decimal : (n : ℕ) → read_from 0 (decimal n) ≡ n
unfolding decimal
read_from-decimal n = read_from-digits (suc n) n [] (omega arith)

abbrev pub IsNumeral : Text → Type 0
IsNumeral = All (λ c. is_digit c ≡ true)

digit-is_digit : (d : ℕ) → d < 10 → is_digit (48 + d) ≡ true
digit-is_digit d h = ground arith

digits-IsNumeral : (f n : ℕ) (acc : Text) → IsNumeral acc → IsNumeral (digits f n acc)
unfolding digits
digits-IsNumeral zero n acc h = h
digits-IsNumeral (suc f) n acc h = elim (Bool-cases (ltb n 10)) [
  | inl small ↦ rw small (digit-is_digit (n % 10) (omega arith), h)
  | inr large ↦
      rw large (
        digits-IsNumeral f (n / 10) ((48 + n % 10) ∷ acc)
          (digit-is_digit (n % 10) (omega arith), h))
]

pub decimal-IsNumeral : (n : ℕ) → IsNumeral (decimal n)
unfolding decimal
decimal-IsNumeral n = digits-IsNumeral (suc n) n [] tt

digits-ne-nil : (f n x : ℕ) (acc : Text) → (y : ℕ) × (r : Text) × (digits f n (x ∷ acc) ≡ y ∷ r)
unfolding digits
digits-ne-nil zero n x acc = (x, acc, refl)
digits-ne-nil (suc f) n x acc = elim (Bool-cases (ltb n 10)) [
  | inl small ↦ (48 + n % 10, x ∷ acc, ground arith)
  | inr large ↦
      let (y, r, e) = digits-ne-nil f (n / 10) (48 + n % 10) (x ∷ acc) in (y, r, ground arith)
]

-- A numeral has a first digit.
pub decimal-cons : (n : ℕ) → (y : ℕ) × (r : Text) × (decimal n ≡ y ∷ r)
unfolding decimal digits
decimal-cons n = elim (Bool-cases (ltb n 10)) [
  | inl small ↦ (48 + n % 10, [], ground arith)
  | inr large ↦ let (y, r, e) = digits-ne-nil n (n / 10) (48 + n % 10) [] in (y, r, ground arith)
]
