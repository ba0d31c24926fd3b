-- ===== src/Internal/Version.antt =====
-- Versions and the compatibility table (src/veltix/internal/compatibility.py). The interpreter's
-- limit on the number of digits that int() reads is left out.
pub mod RoundTrip
pub mod Strict
use veltix.Exceptions.{Exn, value_error, type_error}
use veltix.Prelude.{
  ℕ, ◌≡◌, ◌↔◌, Bool, true, false, ◌&&◌, Option, none, some, List, [], ◌∷◌, ◌++◌, arith, nat_eq,
  if◌then◌else◌, Key, ◌==◌, take, any, Result, ok, err, ◌>>=◌, eq_nat, eq_string, eq_list,
}
use veltix.Prelude.Dict.{Dict, lookup}
use veltix.Prelude.Text.{Text, is_digit, decimal, read_from}

pub record Version : Type 0 where
  pub major : ℕ
  pub minor : ℕ
  pub patch : ℕ

-- Version.__eq__, that of the dataclass
unfoldable pub same_version : Version → Version → Bool
same_version v w = nat_eq v.major w.major && nat_eq v.minor w.minor && nat_eq v.patch w.patch

pub same_version_iff : (v w : Version) → (same_version v w ≡ true) ↔ (v ≡ w)
unfolding same_version
same_version_iff v w = ground arith

instance abbrev pub eq_version : Key Version
eq_version = record { eqb = same_version; eqb_iff = same_version_iff }

abbrev pub onto_head : ℕ → List Text → List Text
onto_head c [] = (c ∷ []) ∷ []
onto_head c (p ∷ ps) = (c ∷ p) ∷ ps

-- s.split("."): 46 is the code of "."
unfoldable pub split_dots : Text → List Text
split_dots [] = [] ∷ []
split_dots (c ∷ s) =
    let parts = split_dots s in if nat_eq c 46 then [] ∷ parts else onto_head c parts

-- re.sub(r"[^0-9].*", "", p)
unfoldable pub leading_digits : Text → Text
leading_digits [] = []
leading_digits (c ∷ s) = let rest = leading_digits s in if is_digit c then c ∷ rest else []

-- int(p) of digits
unfoldable pub int_of_digits : Text → Result Exn ℕ
int_of_digits [] = err value_error
int_of_digits (c ∷ s) = ok (read_from 0 (c ∷ s))

unfoldable pub ints : List Text → Result Exn (List ℕ)
ints [] = ok []
ints (p ∷ ps) = do n ← int_of_digits (leading_digits p); ns ← ints ps; ok (n ∷ ns)

-- Version(*numbers)
unfoldable pub version_of : List ℕ → Result Exn Version
version_of (a ∷ b ∷ c ∷ []) = ok (record { major = a; minor = b; patch = c })
version_of _ = err type_error

-- `version_str[1:] if version_str.startswith("v")`: 118 is the code of "v"
unfoldable pub without_v : Text → Text
without_v [] = []
without_v (c ∷ s) = if nat_eq c 118 then s else c ∷ s

-- Version.from_str
unfoldable pub from_str : Text → Result Exn Version
from_str s = ints (take 3 (split_dots (without_v s))) >>= version_of

-- Version.__str__
unfoldable pub to_str : Version → Text
to_str v = decimal v.major ++ (46 ∷ (decimal v.minor ++ (46 ∷ decimal v.patch)))

-- COMPATIBILITY
unfoldable pub compatibility : Dict Version (List Version)
compatibility =
    let v2_0_0 : Version = record { major = 2; minor = 0; patch = 0 } in
    let v1_9_0 : Version = record { major = 1; minor = 9; patch = 0 } in
    let v1_8_1 : Version = record { major = 1; minor = 8; patch = 1 } in
    let v1_8_0 : Version = record { major = 1; minor = 8; patch = 0 } in
    (v2_0_0, v2_0_0 ∷ [])
    ∷ (v1_9_0, v1_9_0 ∷ [])
    ∷ (v1_8_1, v1_8_1 ∷ [])
    ∷ (v1_8_0, v1_8_0 ∷ [])
    ∷ []

-- `other in COMPATIBILITY[self]`, or None for a version that is not in the table
unfoldable pub accepts : Version → Option (List Version) → Option Bool
accepts other none = none
accepts other (some peers) = some (any (λ w. w == other) peers)

-- Version.is_compatible
unfoldable pub is_compatible : Version → Version → Option Bool
is_compatible v other = accepts other (lookup v compatibility)

-- bool(result)
unfoldable pub bool_of : Option Bool → Bool
bool_of none = false
bool_of (some b) = b

-- The `try` of _check_version, from what the peer's version reads as
unfoldable pub check_read : Version → Result Exn Version → Bool
check_read own (ok peer) = bool_of (is_compatible own peer)
check_read own (err e) = false

-- HandshakeHandler._check_version
unfoldable pub check_version : Version → Text → Bool
check_version own peer_version = check_read own (from_str peer_version)
