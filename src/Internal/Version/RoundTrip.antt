-- ===== src/Internal/Version/RoundTrip.antt =====
-- Printing and reading versions (src/veltix/internal/compatibility.py).
use veltix.Prelude.{
  ℕ, ◌≡◌, refl, sym, ap, ◌∙◌, subst, true, false, [], ◌∷◌, ◌++◌, arith, nat_eq, ok, eq_nat,
  eq_string, eq_list,
}
use veltix.Prelude.Text.{
  Text, is_digit, decimal, read_from, read_from-decimal, IsNumeral, decimal-IsNumeral, decimal-cons,
}
use veltix.Internal.Version.{
  Version, split_dots, leading_digits, int_of_digits, ints, version_of, without_v, from_str, to_str,
  eq_version,
}

digit-not_dot : (c : ℕ) → is_digit c ≡ true → nat_eq c 46 ≡ false
digit-not_dot c d = ground arith

digit-not_v : (c : ℕ) → is_digit c ≡ true → nat_eq c 118 ≡ false
digit-not_v c d = ground arith

-- A numeral is one part, up to the next dot.
split_dots-IsNumeral : (p s : Text) → IsNumeral p → split_dots (p ++ 46 ∷ s) ≡ p ∷ split_dots s
unfolding split_dots
split_dots-IsNumeral [] s h = refl
split_dots-IsNumeral (c ∷ p) s (d, h) = rw (digit-not_dot c d, split_dots-IsNumeral p s h) refl

split_dots-last : (p : Text) → IsNumeral p → split_dots p ≡ p ∷ []
unfolding split_dots
split_dots-last [] h = refl
split_dots-last (c ∷ p) (d, h) = rw (digit-not_dot c d, split_dots-last p h) refl

leading_digits-IsNumeral : (p : Text) → IsNumeral p → leading_digits p ≡ p
unfolding leading_digits
leading_digits-IsNumeral [] h = refl
leading_digits-IsNumeral (c ∷ p) (d, h) = rw d (ap (λ t. c ∷ t) (leading_digits-IsNumeral p h))

int-decimal : (n : ℕ) → int_of_digits (leading_digits (decimal n)) ≡ ok n
unfolding int_of_digits
int-decimal n =
    let (y, r, e) = decimal-cons n in
    let whole : leading_digits (decimal n) ≡ decimal n =
      leading_digits-IsNumeral (decimal n) (decimal-IsNumeral n) in
    let read : read_from 0 (decimal n) ≡ n = read_from-decimal n in
    rw (whole, e) (ap ok (sym (ap (read_from 0) e) ∙ read))

-- A numeral does not begin with "v".
without_v-decimal : (n : ℕ) (s : Text) → without_v (decimal n ++ s) ≡ decimal n ++ s
unfolding without_v
without_v-decimal n s =
    let (y, r, e) = decimal-cons n in
    let (d, rest) = subst IsNumeral e (decimal-IsNumeral n) in rw (e, digit-not_v y d) refl

-- Reading what a version prints gives the version.
pub from_str-to_str : (v : Version) → from_str (to_str v) ≡ ok v
unfolding from_str to_str ints version_of
from_str-to_str v =
    let a = v.major in
    let b = v.minor in
    let c = v.patch in
    rw
      (
        without_v-decimal a (46 ∷ (decimal b ++ (46 ∷ decimal c))),
        split_dots-IsNumeral (decimal a) (decimal b ++ (46 ∷ decimal c)) (decimal-IsNumeral a),
        split_dots-IsNumeral (decimal b) (decimal c) (decimal-IsNumeral b),
        split_dots-last (decimal c) (decimal-IsNumeral c),
        int-decimal a,
        int-decimal b,
        int-decimal c,
      )
      refl
