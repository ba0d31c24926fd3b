-- ===== src/Tests/Versions.antt =====
-- Versions at concrete inputs.
use veltix.Exceptions.{value_error, type_error}
use veltix.Prelude.{◌≡◌, refl, ok, err, eq_nat, eq_string, eq_list}
use veltix.Prelude.Text.{codes}
use veltix.Internal.Version.{
  Version, split_dots, leading_digits, int_of_digits, ints, version_of, without_v, from_str, to_str,
  eq_version,
}
use veltix.Internal.Version.RoundTrip.{from_str-to_str}

abbrev v1_8_10 : Version
v1_8_10 = record { major = 1; minor = 8; patch = 10 }

from_str-to_str_example : from_str (to_str v1_8_10) ≡ ok v1_8_10
from_str-to_str_example = from_str-to_str v1_8_10

-- A prefix, a suffix and a fourth part are dropped, a part without digits and a missing part raise.
pre_release : from_str (codes "v1.8.10b2.x") ≡ ok v1_8_10
unfolding from_str without_v split_dots ints leading_digits int_of_digits version_of
pre_release = refl

no_digits : from_str (codes "1.x.2") ≡ err value_error
unfolding from_str without_v split_dots ints leading_digits int_of_digits version_of
no_digits = refl

two_parts : from_str (codes "1.8") ≡ err type_error
unfolding from_str without_v split_dots ints leading_digits int_of_digits version_of
two_parts = refl
