-- ===== src/Prelude/Tests.antt =====
-- Boolean tests, the conditional, and equality of keys as an instance.
use Prim.Native.Nat.{ℕ, ◌≤◌, ◌<◌, compare, Ordering}
use Prim.Native.String.{String}
use mathlib.Core.Path.{◌≡◌, refl, subst}
use mathlib.Core.List.{List, [], ◌∷◌}
use mathlib.Core.Logic.{◌↔◌, ◌⊎◌, inl, inr}
use mathlib.Core.Bool.{Bool, true, false, ◌&&◌}
use mathlib.Core.Option.{Option, none, some}
use native.Mathlib.Omega.{arith}
use text.Mathlib.Text.{◌==◌ as str_eq}
use text.Mathlib.TextEquality.{eq_iff}

abbrev pub ltb : ℕ → ℕ → Bool
ltb a b = elim (compare a b) [ Ordering.lt ↦ true | _ ↦ false ]

abbrev pub leb : ℕ → ℕ → Bool
leb a b = elim (compare a b) [ Ordering.gt ↦ false | _ ↦ true ]

abbrev pub nat_eq : ℕ → ℕ → Bool
nat_eq a b = elim (compare a b) [ Ordering.eq ↦ true | _ ↦ false ]

infix 1 if◌then◌else◌
abbrev pub if◌then◌else◌ {ℓ} : {A : Type ℓ} → Bool → A → A → A
if true then x else y = x
if false then x else y = y

pub ltb→lt : (a b : ℕ) → ltb a b ≡ true → a < b
ltb→lt a b h = ground arith

pub lt→ltb : (a b : ℕ) → a < b → ltb a b ≡ true
lt→ltb a b h = ground arith

pub leb→le : (a b : ℕ) → leb a b ≡ true → a ≤ b
leb→le a b h = ground arith

pub le→leb : (a b : ℕ) → a ≤ b → leb a b ≡ true
le→leb a b h = ground arith

pub le→ltb_false : (a b : ℕ) → b ≤ a → ltb a b ≡ false
le→ltb_false a b h = ground arith

pub nat_eq_iff : (a b : ℕ) → (nat_eq a b ≡ true) ↔ (a ≡ b)
nat_eq_iff a b = ground arith

pub nat_eq_refl : (a : ℕ) → nat_eq a a ≡ true
nat_eq_refl a = ground arith

-- Types of keys and members: their equality can be tested.
pub record Key {κ} (K : Type κ) : Type κ where
  pub eqb : K → K → Bool
  pub eqb_iff : (x y : K) → (eqb x y ≡ true) ↔ (x ≡ y)

instance abbrev pub eq_nat : Key ℕ
eq_nat = record { eqb_iff = nat_eq_iff; eqb = nat_eq }

instance abbrev pub eq_string : Key String
eq_string = record { eqb_iff = eq_iff; eqb = str_eq }

abbrev pub ◌==◌ {κ} : {K : Type κ} ⦃k : Key K⦄ → K → K → Bool
◌==◌ ⦃k⦄ x y = k.eqb x y

infix 50 ◌==◌
abbrev pub list_eq {ℓ} : {A : Type ℓ} ⦃e : Key A⦄ → List A → List A → Bool
list_eq [] [] = true
list_eq (x ∷ xs) (y ∷ ys) = (x == y) && list_eq xs ys
list_eq _ _ = false

pub list_eq→eq {ℓ} : {A : Type ℓ} ⦃e : Key A⦄ (xs ys : List A) → list_eq xs ys ≡ true → xs ≡ ys
list_eq→eq [] [] h = refl
list_eq→eq ⦃e⦄ (x ∷ xs) (y ∷ ys) h = ground (arith, e.eqb_iff x y, list_eq→eq xs ys)
list_eq→eq _ _ h = cc

pub list_eq_refl {ℓ} : {A : Type ℓ} ⦃e : Key A⦄ (xs : List A) → list_eq xs xs ≡ true
list_eq_refl [] = refl
list_eq_refl ⦃e⦄ (x ∷ xs) = ground (arith, e.eqb_iff x x, list_eq_refl xs)

pub list_eq_iff {ℓ} : {A : Type ℓ} ⦃e : Key A⦄ (xs ys : List A) → (list_eq xs ys ≡ true) ↔ (xs ≡ ys)
list_eq_iff xs ys = (list_eq→eq xs ys, λ p. subst (λ zs. list_eq xs zs ≡ true) p (list_eq_refl xs))

instance abbrev pub eq_list {ℓ} : {A : Type ℓ} ⦃e : Key A⦄ → Key (List A)
eq_list = record { eqb = list_eq; eqb_iff = list_eq_iff }

pub ==_refl {ℓ} : {A : Type ℓ} ⦃e : Key A⦄ (a : A) → (a == a) ≡ true
==_refl ⦃e⦄ a = (e.eqb_iff a a).1 refl

-- To split on a computed value and keep the equation.
pub Bool-cases : (b : Bool) → (b ≡ true) ⊎ (b ≡ false)
Bool-cases true = inl refl
Bool-cases false = inr refl

pub Option-cases {ℓ} : {A : Type ℓ} (o : Option A) → (o ≡ none) ⊎ ((a : A) × (o ≡ some a))
Option-cases none = inl refl
Option-cases (some a) = inr (a, refl)

-- `x is not None`
abbrev pub is_some {ℓ} : {A : Type ℓ} → Option A → Bool
is_some none = false
is_some (some _) = true

-- A property of both branches of a conditional, each under its condition.
pub if_intro {ℓ κ} :
    {A : Type ℓ} (P : A → Type κ) (b : Bool) (x y : A)
    → (b ≡ true → P x)
    → (b ≡ false → P y)
    → P (if b then x else y)
if_intro P true x y t f = t refl
if_intro P false x y t f = f refl
