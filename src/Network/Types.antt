-- ===== src/Network/Types.antt =====
-- Message types and their registry (src/veltix/network/types.py).
-- The class-level registry is a state that is passed on; `_lock` makes `register` one step.
pub mod Registry
use veltix.Prelude.{
  ℕ, zero, suc, ◌+◌, ◌-◌, Bool, not, ◌&&◌, Option, none, some, List, [], ◌++◌, ltb, leb,
  if◌then◌else◌, ◌==◌, Result, ok, err, eq_nat, eq_string, eq_list,
}
use veltix.Prelude.Dict.{Dict, lookup, contains, insert, values}
use veltix.Prelude.Text.{Text, codes, decimal}
use veltix.Exceptions.{
  Exn, duplicate_name, system_without_code, no_available_code, code_not_int, code_out_of_range,
  code_reserved, system_code_taken, code_taken,
}

abbrev pub user_code_min : ℕ
user_code_min = 200

abbrev pub user_code_max : ℕ
user_code_max = 9999

abbrev pub protocol_max : ℕ
protocol_max = 65535

pub record MessageType : Type 0 where
  pub code : ℕ
  pub name : Text
  pub description : Option Text

abbrev pub Registry : Type 0
Registry = Dict ℕ MessageType

-- MessageTypeRegistry.register
unfoldable pub register : MessageType → Registry → Result Exn (Unit {0}) × Registry
register t reg =
    if contains t.code reg
    then (if ltb t.code user_code_min then err system_code_taken else err code_taken, reg)
    else (ok tt, insert t.code t reg)

-- `for code in range(code, code + n)`, in `_next_code`
unfoldable pub first_free : ℕ → ℕ → Registry → Result Exn ℕ
first_free zero code reg = err no_available_code
first_free (suc n) code reg =
    let rest = first_free n (code + 1) reg in if contains code reg then rest else ok code

-- MessageTypeRegistry._next_code
unfoldable pub next_code : Registry → Result Exn ℕ
next_code reg = first_free (user_code_max + 1 - user_code_min) user_code_min reg

-- MessageTypeRegistry.get
unfoldable pub get : ℕ → Registry → Option MessageType
get code reg = lookup code reg

-- MessageTypeRegistry.list_all
unfoldable pub list_all : Registry → List MessageType
list_all reg = values reg

-- The first argument of the constructor: None, a str, an int (`negative n` is -(n + 1)), or a
-- value of another type.
pub data CodeArg : Type 0 where
  no_code : CodeArg
  name_first : Text → CodeArg
  number negative : ℕ → CodeArg
  other_value : CodeArg

-- name or f"type_{code}"
unfoldable pub name_or_default : Option Text → ℕ → Text
name_or_default none code = codes "type_" ++ decimal code
name_or_default (some name) code = if name == [] then codes "type_" ++ decimal code else name

-- The range checks, the assignment of the fields and the registration.
unfoldable pub checked :
    ℕ → Option Text → Option Text → Bool → Registry → Result Exn MessageType × Registry
checked code name description system reg =
    if not (leb code protocol_max)
    then (err code_out_of_range, reg)
    else if ltb code user_code_min && not system
    then (err code_reserved, reg)
    else let self : MessageType = record {
      code = code;
      name = name_or_default name code;
      description = description;
    } in
      let (done, reg') = register self reg in (elim done [ ok _ ↦ ok self | err e ↦ err e ], reg')

-- Auto-allocation, where no code is given.
unfoldable pub auto_allocated :
    Option Text → Option Text → Bool → Registry → Result Exn MessageType × Registry
auto_allocated name description system reg =
    if system then (err system_without_code, reg) else elim (next_code reg) [
      | ok code ↦ checked code name description system reg
      | err e ↦ (err e, reg)
    ]

-- MessageType.__init__
unfoldable pub construct :
    CodeArg → Option Text → Option Text → Bool → Registry → Result Exn MessageType × Registry
construct no_code name description system reg = auto_allocated name description system reg
construct (name_first s) none description system reg =
    auto_allocated (some s) description system reg
construct (name_first s) (some name) description system reg = (err duplicate_name, reg)
construct (number code) name description system reg = checked code name description system reg
construct (negative n) name description system reg = (err code_out_of_range, reg)
construct other_value name description system reg = (err code_not_int, reg)
