-- ===== src/Conftool/Fields/Defaulted.antt =====
-- What DefaultsAndRequired does to each leaf of a struct, described without the functions of the code.
use goblocks.Prelude.Eq.{◌==◌, nat_eq, int_eq, string_eq}
use goblocks.Prelude.Int.{ℤ, pos, negsuc}
use goblocks.Prelude.{
  ℕ, zero, suc, String, ◌≡◌, Bool, true, false, ◌&&◌, Option, none, some, List, [], ◌∷◌,
  if◌then◌else◌,
}
use goblocks.Conftool.Fields.Wraps.{Wraps, WrapsTo}
use goblocks.Conftool.Fields.{
  Value, text, int, uint, float, bool, slice, map_of, other, Fields, ParsedInt, parsed,
  syntax_error, range_error, Parsers, FieldPath,
}
use goblocks.Conftool.Fields.Leaves.{Leaf}

-- The value holds nothing: a slice or a map without elements, the empty string, zero, false, or the
-- zero value of another kind.
abbrev pub holds_nothing : Value → Bool
holds_nothing (text s) = s == ""
holds_nothing (int bits (pos zero)) = true
holds_nothing (int bits (pos (suc n))) = false
holds_nothing (int bits (negsuc n)) = false
holds_nothing (uint bits zero) = true
holds_nothing (uint bits (suc n)) = false
holds_nothing (float zero) = true
holds_nothing (float (suc x)) = false
holds_nothing (bool true) = false
holds_nothing (bool false) = true
holds_nothing (slice none) = true
holds_nothing (slice (some zero)) = true
holds_nothing (slice (some (suc n))) = false
holds_nothing (map_of none) = true
holds_nothing (map_of (some zero)) = true
holds_nothing (map_of (some (suc n))) = false
holds_nothing (other is_zero) = is_zero

-- the tag required:"true"
abbrev pub has_to_be_set : Option String → Bool
has_to_be_set none = false
has_to_be_set (some r) = r == "true"

-- It can be set, holds nothing, and has to be set but has no default.
abbrev pub is_lacking : Leaf → Bool
is_lacking l =
    (l.can_set && holds_nothing l.value)
    && elim l.tags.default [ none ↦ has_to_be_set l.tags.required | some d ↦ false ]

abbrev pub lacking : List Leaf → List FieldPath
lacking [] = []
lacking (l ∷ ls) = if is_lacking l then l.path ∷ lacking ls else lacking ls

-- the duration that a default names, if it is no number
abbrev pub TakesDuration : ℕ → ℤ → Option ℤ → Value → Type 0
TakesDuration bits n none v' = v' ≡ int bits n
TakesDuration bits n (some t) v' = (k : ℤ) × (v' ≡ int bits k) × Wraps bits t k

abbrev pub TakesInt : Parsers → String → ℕ → ℤ → ParsedInt → Value → Type 0
TakesInt p d bits n (parsed m) v' = (k : ℤ) × (v' ≡ int bits k) × Wraps bits m k
TakesInt p d bits n syntax_error v' = TakesDuration bits n (p.parse_duration d) v'
TakesInt p d bits n range_error v' = v' ≡ int bits n

abbrev pub TakesUint : ℕ → ℕ → Option ℕ → Value → Type 0
TakesUint bits n none v' = v' ≡ uint bits n
TakesUint bits n (some m) v' = (k : ℕ) × (v' ≡ uint bits k) × WrapsTo bits m k

-- a value that a parser gives, or the old one
abbrev pub parsed_or {ℓ} : {A : Type ℓ} → Option A → (A → Value) → Value → Value
parsed_or none make v = v
parsed_or (some a) make v = make a

-- The default `d` makes `v'` of `v`: a text as it is, a number, a duration or a Boolean as it is
-- parsed, cut to the width of an integer. What cannot be parsed, a slice, a map and a value of another
-- kind stay as they are.
abbrev pub Takes : Parsers → String → Value → Value → Type 0
Takes p d (text s) v' = v' ≡ text d
Takes p d (int bits n) v' = TakesInt p d bits n (p.parse_int d) v'
Takes p d (uint bits n) v' = TakesUint bits n (p.parse_uint d) v'
Takes p d (float x) v' = v' ≡ parsed_or (p.parse_float d) float (float x)
Takes p d (bool b) v' = v' ≡ parsed_or (p.parse_bool d) bool (bool b)
Takes p d (slice n) v' = v' ≡ slice n
Takes p d (map_of n) v' = v' ≡ map_of n
Takes p d (other z) v' = v' ≡ other z

-- The value after the walk, by whether it can be set and held nothing, and by the default.
abbrev pub Becomes : Parsers → Bool → Option String → Value → Value → Type 0
Becomes p true (some d) v v' = Takes p d v v'
Becomes p true none v v' = v' ≡ v
Becomes p false d v v' = v' ≡ v

abbrev pub Defaulted : Parsers → Leaf → Leaf → Type 0
Defaulted p l l' =
    (l'.path ≡ l.path)
    × (l'.tags ≡ l.tags)
    × (l'.can_set ≡ l.can_set)
    × Becomes p (l.can_set && holds_nothing l.value) l.tags.default l.value l'.value

-- The lists are as long as each other, and each leaf of the second is made of the one of the first.
abbrev pub AllDefaulted : Parsers → List Leaf → List Leaf → Type 0
AllDefaulted p [] [] = Unit
AllDefaulted p (l ∷ ls) (l' ∷ ls') = Defaulted p l l' × AllDefaulted p ls ls'
AllDefaulted p [] (l' ∷ ls') = true ≡ false
AllDefaulted p (l ∷ ls) [] = true ≡ false
