-- ===== src/Conftool/Fields.antt =====
-- conftool/conftool.go: DefaultsAndRequired over the fields of a struct. The parsers of strconv and
-- time are parameters; a float is named by a number, zero by 0.
pub mod Leaves
pub mod Wraps
pub mod Defaulted
pub mod Again
mod Tests
use goblocks.Prelude.Eq.{◌==◌, nat_eq, int_eq, string_eq}
use goblocks.Prelude.Int.{ℤ, pos, negsuc, int_beq}
use goblocks.Prelude.Map
use goblocks.Prelude.Map.{Map}
use goblocks.Prelude.{
  ℕ, ◌-◌, ◌*◌, ◌%◌, ◌^◌, String, Bool, true, false, not, Option, none, some, List, [], ◌∷◌, ◌++◌,
  map, ltb, nat_beq, if◌then◌else◌,
}

-- A field that is no struct, by its kind. An integer kind has its width in bits.
pub data Value : Type 0 where
  text : String → Value
  int : ℕ → ℤ → Value
  uint : ℕ → ℕ → Value
  float : ℕ → Value
  bool : Bool → Value
  -- a slice or a map that is nil, or has so many elements
  slice map_of : Option ℕ → Value
  -- a value of any other kind, such as a pointer, by whether it is the zero value
  other : Bool → Value

pub record Tags : Type 0 where
  pub required : Option String
  pub default : Option String

-- The fields of a struct. A leaf has its name, its tags, whether it can be set (is exported), and
-- its value; a nested struct its name and whether it is exported.
pub data Fields : Type 0 where
  no_more : Fields
  leaf : String → Tags → Bool → Value → Fields → Fields
  nested : String → Bool → Fields → Fields → Fields

pub data ParsedInt : Type 0 where
  parsed : ℤ → ParsedInt
  syntax_error range_error : ParsedInt

pub record Parsers : Type 0 where
  pub parse_int : String → ParsedInt
  pub parse_duration : String → Option ℤ
  pub parse_uint : String → Option ℕ
  pub parse_float : String → Option ℕ
  pub parse_bool : String → Option Bool

-- the conversion of an int64 to a signed integer of `bits` bits, from its residue
abbrev pub from_residue : ℕ → ℕ → ℤ
from_residue bits r = if ltb (r * 2) (2 ^ bits) then pos r else negsuc (2 ^ bits - 1 - r)

abbrev pub wrap_int : ℕ → ℤ → ℤ
wrap_int bits (pos n) = from_residue bits (n % 2 ^ bits)
wrap_int bits (negsuc n) = from_residue bits (2 ^ bits - 1 - n % 2 ^ bits)

-- isFieldRequired
unfoldable pub is_field_required : Tags → Bool
is_field_required tags = elim tags.required [ none ↦ false | some r ↦ r == "true" ]

abbrev pub is_none_or_empty : Option ℕ → Bool
is_none_or_empty none = true
is_none_or_empty (some n) = nat_beq n 0

-- isFieldEmpty
unfoldable pub is_field_empty : Value → Bool
is_field_empty (slice n) = is_none_or_empty n
is_field_empty (map_of n) = is_none_or_empty n
is_field_empty (text s) = s == ""
is_field_empty (int bits n) = int_beq n (pos 0)
is_field_empty (uint bits n) = nat_beq n 0
is_field_empty (float x) = nat_beq x 0
is_field_empty (bool b) = not b
is_field_empty (other is_zero) = is_zero

abbrev pub set_or_keep {ℓ} : {A : Type ℓ} → Option A → (A → Value) → Value → Value
set_or_keep none set v = v
set_or_keep (some a) set v = set a

-- the signed case of setField, after ParseInt
abbrev pub set_int : Parsers → String → ℕ → ℤ → ParsedInt → Value
set_int p default bits n (parsed m) = int bits (wrap_int bits m)
set_int p default bits n syntax_error =
    set_or_keep (p.parse_duration default) (λ d. int bits (wrap_int bits d)) (int bits n)
set_int p default bits n range_error = int bits n

-- setField
unfoldable pub set_field : Parsers → Value → String → Value
set_field p (text s) default = text default
set_field p (int bits n) default = set_int p default bits n (p.parse_int default)
set_field p (uint bits n) default =
    set_or_keep (p.parse_uint default) (λ m. uint bits (m % 2 ^ bits)) (uint bits n)
set_field p (float x) default = set_or_keep (p.parse_float default) float (float x)
set_field p (bool b) default = set_or_keep (p.parse_bool default) bool (bool b)
set_field p v default = v

-- A field's path, which is printed with dots between the names.
abbrev pub FieldPath : Type 0
FieldPath = List String

-- What the loop body leaves of a leaf, and whether it is reported.
unfoldable pub visit : Parsers → Tags → Bool → Value → Value × Bool
unfolding is_field_empty is_field_required set_field
visit p tags can_set v =
    if not can_set
    then (v, false)
    else if not (is_field_empty v)
    then (v, false)
    else elim tags.default [
      | none ↦ (v, is_field_required tags)
      | some d ↦ (set_field p v d, false)
    ]

abbrev pub reported : String → Bool → List FieldPath → List FieldPath
reported name true reqs = (name ∷ []) ∷ reqs
reported name false reqs = reqs

abbrev pub after_leaf :
    String
    → Tags
    → Bool
    → Value × Bool
    → Option (Fields × List FieldPath)
    → Option (Fields × List FieldPath)
after_leaf name tags can_set (v, missing) none = none
after_leaf name tags can_set (v, missing) (some (fs, reqs)) =
    some (leaf name tags can_set v fs, reported name missing reqs)

abbrev pub after_nested :
    String
    → Option (Fields × List FieldPath)
    → Option (Fields × List FieldPath)
    → Option (Fields × List FieldPath)
after_nested name none rest = none
after_nested name (some dive) none = none
after_nested name (some (sub, dive)) (some (fs, reqs)) =
    some (nested name true sub fs, map (λ d. name ∷ d) dive ++ reqs)

-- defsAndReqs: the fields with their defaults, and the paths reported. `none` is the panic of
-- Interface on a struct that is not exported.
unfoldable pub defs_and_reqs : Parsers → Fields → Option (Fields × List FieldPath)
unfolding visit
defs_and_reqs p no_more = some (no_more, [])
defs_and_reqs p (leaf name tags can_set v rest) =
    after_leaf name tags can_set (visit p tags can_set v) (defs_and_reqs p rest)
defs_and_reqs p (nested name false sub rest) = none
defs_and_reqs p (nested name true sub rest) =
    after_nested name (defs_and_reqs p sub) (defs_and_reqs p rest)

pub data Checked : Type 0 where
  complete : Fields → Checked
  -- the error that names the parameters not set
  not_set : Fields → List FieldPath → Checked
  panics : Checked

-- len(reqs) > 0
abbrev pub checked : Option (Fields × List FieldPath) → Checked
checked none = panics
checked (some (fs, [])) = complete fs
checked (some (fs, r ∷ reqs)) = not_set fs (r ∷ reqs)

-- DefaultsAndRequired
unfoldable pub defaults_and_required : Parsers → Fields → Checked
unfolding defs_and_reqs
defaults_and_required p fs = checked (defs_and_reqs p fs)
