-- ===== src/Network/Types/Registry.antt =====
-- The registry holds each code once, in range, and a failed construction leaves it alone.
use native.Mathlib.Decide.{dec_lt}
use veltix.Exceptions.{Exn, no_available_code}
use veltix.Prelude.{
  ℕ, zero, suc, ◌+◌, ◌-◌, ◌≤◌, ◌<◌, ◌≡◌, refl, sym, ◌≢◌, inl, inr, Bool, true, false, not, ◌&&◌,
  Option, none, some, [], arith, ltb, leb, nat_eq_iff, Bool-cases, Result, ok, err, eq_nat,
  eq_string, eq_list,
}
use veltix.Prelude.Dict.{lookup, contains, lookup-insert, lookup-insert_self, lookup-insert_ne}
use veltix.Prelude.Text.{Text}
use veltix.Network.Types.{
  user_code_min, user_code_max, protocol_max, MessageType, Registry, register, first_free,
  next_code, CodeArg, no_code, name_first, number, negative, other_value, name_or_default, checked,
  auto_allocated, construct,
}

-- Every entry stands under its own code, which fits the 16 bits of the header.
pub record IsRegistry (reg : Registry) : Type 0 where
  pub own_code : (c : ℕ) (t : MessageType) → lookup c reg ≡ some t → t.code ≡ c
  pub in_range : (c : ℕ) (t : MessageType) → lookup c reg ≡ some t → c ≤ protocol_max

pub IsRegistry-empty : IsRegistry []
unfolding lookup
IsRegistry-empty = record { own_code = λ c t h. cc; in_range = λ c t h. cc }

register-IsRegistry :
    (t : MessageType) (reg : Registry)
    → t.code ≤ protocol_max
    → IsRegistry reg
    → IsRegistry (register t reg).1
unfolding register
register-IsRegistry t reg fits v = elim (Bool-cases (contains t.code reg)) [
  | inl old ↦ rw old v
  | inr new ↦ rw new (record {
    own_code =
        λ c u h. ground (arith, lookup-insert t.code c t reg, nat_eq_iff t.code c, v.own_code c u);
    in_range =
        λ c u h. ground (arith, lookup-insert t.code c t reg, nat_eq_iff t.code c, v.in_range c u);
  })
]

checked-IsRegistry :
    (c : ℕ) (name description : Option Text) (system : Bool) (reg : Registry)
    → IsRegistry reg
    → IsRegistry (checked c name description system reg).1
unfolding checked
checked-IsRegistry c name description system reg v = ground (
  arith,
  register-IsRegistry
      (record { code = c; name = name_or_default name c; description = description }) reg,
)

auto_allocated-IsRegistry :
    (name description : Option Text) (system : Bool) (reg : Registry)
    → IsRegistry reg
    → IsRegistry (auto_allocated name description system reg).1
unfolding auto_allocated
auto_allocated-IsRegistry name description true reg v = v
auto_allocated-IsRegistry name description false reg v = go (next_code reg)
  where
    go :
        (r : Result Exn ℕ)
        → IsRegistry
            (elim r as (λ _. Result Exn MessageType × Registry) [
              | ok code ↦ checked code name description false reg
              | err e ↦ (err e, reg)
            ]).1
    go (ok c) = checked-IsRegistry c name description false reg v
    go (err e) = v

-- Constructing a message type, whether it succeeds or raises, keeps the registry well formed.
pub construct-IsRegistry :
    (code : CodeArg) (name description : Option Text) (system : Bool) (reg : Registry)
    → IsRegistry reg
    → IsRegistry (construct code name description system reg).1
unfolding construct
construct-IsRegistry no_code name d system reg v = auto_allocated-IsRegistry name d system reg v
construct-IsRegistry (name_first s) none d system reg v =
    auto_allocated-IsRegistry (some s) d system reg v
construct-IsRegistry (name_first s) (some name) d system reg v = v
construct-IsRegistry (number c) name d system reg v = checked-IsRegistry c name d system reg v
construct-IsRegistry (negative n) name d system reg v = v
construct-IsRegistry other_value name d system reg v = v

-- What a constructed type is, and what the registry is then.
pub record Registered (reg reg' : Registry) (system : Bool) (t : MessageType) : Type 0 where
  pub was_free : lookup t.code reg ≡ none
  pub in_range : t.code ≤ protocol_max
  pub not_reserved : system ≡ false → user_code_min ≤ t.code
  pub stored : lookup t.code reg' ≡ some t
  pub others : (c : ℕ) → c ≢ t.code → lookup c reg' ≡ lookup c reg

-- How a constructor call may end.
abbrev pub Outcome : Registry → Bool → Result Exn MessageType × Registry → Type 0
Outcome reg system (ok t, reg') = Registered reg reg' system t
Outcome reg system (err _, reg') = reg' ≡ reg

checked-Outcome :
    (c : ℕ) (name d : Option Text) (system : Bool) (reg : Registry)
    → Outcome reg system (checked c name d system reg)
unfolding checked register
checked-Outcome c name d system reg = elim (Bool-cases (leb c protocol_max)) [
  | inr out ↦ rw out refl
  | inl fits ↦ rw fits (elim (Bool-cases (ltb c user_code_min && not system)) [
    | inl low ↦ rw low refl
    | inr user ↦ rw user (elim (Bool-cases (contains c reg)) [
      | inl old ↦ rw old (elim (Bool-cases (ltb c user_code_min)) [
        | inl sys ↦ rw sys refl
        | inr usr ↦ rw usr refl
      ])
      | inr new ↦ rw new (record {
        was_free = ground arith;
        in_range = ground arith;
        not_reserved = λ e. ground arith;
        stored = lookup-insert_self c _ reg;
        others = λ j ne. lookup-insert_ne c j _ reg (λ p. ne (sym p));
      })
    ])
  ])
]

-- The scan finds the least free code of its range, and fails only if the range is full.
abbrev pub Scanned : ℕ → ℕ → Registry → Result Exn ℕ → Type 0
Scanned n code reg (ok c) =
    (code ≤ c)
    × (c < code + n)
    × (lookup c reg ≡ none)
    × ((d : ℕ) → code ≤ d → d < c → contains d reg ≡ true)
Scanned n code reg (err e) =
    (e ≡ no_available_code) × ((d : ℕ) → code ≤ d → d < code + n → contains d reg ≡ true)

widen :
    (n code : ℕ) (reg : Registry)
    → contains code reg ≡ true
    → (r : Result Exn ℕ) → Scanned n (code + 1) reg r
    → Scanned (suc n) code reg r
widen n code reg full (ok c) (low, high, free, below) = (
  omega arith,
  omega arith,
  free,
  λ d a b. elim (dec_lt code d) [
    | yes p ↦ below d (omega arith) b
    | no p ↦ let e : code ≡ d = omega arith in rw (← e) full
  ],
)
widen n code reg full (err x) (e, all_taken) = (
  e,
  λ d a b. elim (dec_lt code d) [
    | yes p ↦ all_taken d (omega arith) (omega arith)
    | no p ↦ let e' : code ≡ d = omega arith in rw (← e') full
  ],
)

first_free-Scanned : (n code : ℕ) (reg : Registry) → Scanned n code reg (first_free n code reg)
unfolding first_free
first_free-Scanned zero code reg = (refl, λ d a b. absurd (omega arith))
first_free-Scanned (suc n) code reg = elim (Bool-cases (contains code reg)) [
  | inr free ↦ rw free (omega arith, omega arith, ground arith, λ d a b. absurd (omega arith))
  | inl full ↦
      rw full
        (widen n code reg full (first_free n (code + 1) reg) (first_free-Scanned n (code + 1) reg))
]

-- Auto-allocation takes the least free code of 200 to 9999, and raises only if all are taken.
pub next_code-least :
    (reg : Registry) → Scanned (user_code_max + 1 - user_code_min) user_code_min reg (next_code reg)
unfolding next_code
next_code-least reg = first_free-Scanned 9800 user_code_min reg

auto_allocated-Outcome :
    (name d : Option Text) (system : Bool) (reg : Registry)
    → Outcome reg system (auto_allocated name d system reg)
unfolding auto_allocated
auto_allocated-Outcome name d true reg = refl
auto_allocated-Outcome name d false reg = go (next_code reg)
  where
    go :
        (r : Result Exn ℕ)
        → Outcome reg false (elim r as (λ _. Result Exn MessageType × Registry) [
          | ok code ↦ checked code name d false reg
          | err e ↦ (err e, reg)
        ])
    go (ok c) = checked-Outcome c name d false reg
    go (err e) = refl

-- A constructor call that succeeds has registered a type whose code was free, fits 16 bits and is
-- not reserved unless the type is a system one, and has changed no other entry; a call that raises
-- has left the registry as it was.
pub construct-Outcome :
    (code : CodeArg) (name d : Option Text) (system : Bool) (reg : Registry)
    → Outcome reg system (construct code name d system reg)
unfolding construct
construct-Outcome no_code name d system reg = auto_allocated-Outcome name d system reg
construct-Outcome (name_first s) none d system reg = auto_allocated-Outcome (some s) d system reg
construct-Outcome (name_first s) (some name) d system reg = refl
construct-Outcome (number c) name d system reg = checked-Outcome c name d system reg
construct-Outcome (negative n) name d system reg = refl
construct-Outcome other_value name d system reg = refl
