-- ===== src/Internal/Version/Strict.antt =====
-- The compatibility table (src/veltix/internal/compatibility.py).
use veltix.Prelude.{
  ◌≡◌, refl, ap, ◌∙◌, inl, inr, Bool, true, false, none, some, List, [], ◌∷◌, arith, if◌then◌else◌,
  Bool-cases, All, eq_nat, eq_string, eq_list,
}
use veltix.Prelude.Dict.{Dict, lookup, contains}
use veltix.Internal.Version.{
  Version, same_version, same_version_iff, compatibility, accepts, is_compatible, eq_version,
}

-- Each version of the table has itself as its only peer.
abbrev IsStrict : Dict Version (List Version) → Type 0
IsStrict = All (λ (e : Version × List Version). e.1 ≡ e.0 ∷ [])

lookup-IsStrict :
    (v : Version) (d : Dict Version (List Version))
    → IsStrict d
    → lookup v d ≡ (if contains v d then some (v ∷ []) else none)
unfolding lookup
lookup-IsStrict v [] h = refl
lookup-IsStrict v ((k, peers) ∷ d) (own, h) = elim (Bool-cases (same_version k v)) [
  | inl same ↦ rw same (ap some (own ∙ ap (λ x. x ∷ []) ((same_version_iff k v).0 same)))
  | inr other ↦ rw other (lookup-IsStrict v d h)
]

compatibility-IsStrict : IsStrict compatibility
unfolding compatibility
compatibility-IsStrict = (refl, (refl, (refl, (refl, tt))))

accepts-only :
    (known : Bool) (v w : Version)
    → accepts w (if known then some (v ∷ []) else none)
      ≡ (if known then some (same_version v w) else none)
unfolding accepts
accepts-only true v w = ap some (ground arith)
accepts-only false v w = refl

-- The table is strict: a version that is in it accepts the versions that it equals and refuses
-- the others, and a version that is not in it answers None to every peer.
pub is_compatible-strict :
    (v w : Version)
    → is_compatible v w ≡ (if contains v compatibility then some (same_version v w) else none)
unfolding is_compatible
is_compatible-strict v w =
    ap (accepts w) (lookup-IsStrict v compatibility compatibility-IsStrict)
    ∙ accepts-only (contains v compatibility) v w
