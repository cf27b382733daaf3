-- ===== src/Conftool/Fields/Again.antt =====
-- A second run of DefaultsAndRequired.
use goblocks.Conftool.Fields.{
  complete, checked, defaults_and_required, Value, text, int, uint, float, bool, slice, map_of,
  other, Tags, Fields, no_more, leaf, nested, Parsers, set_field, FieldPath, visit, after_leaf,
  after_nested, defs_and_reqs,
}
use mathlib.Core.Path.{subst}
use goblocks.Prelude.{
  String, ◌≡◌, refl, ap, inl, inr, Bool, true, false, Option, none, some, List, [], ◌∷◌, arith,
  Option-cases,
}
use goblocks.Conftool.Fields.{
  Value, text, int, uint, float, bool, slice, map_of, other, Tags, Fields, no_more, leaf, nested,
  Parsers, set_field, FieldPath, visit, after_leaf, after_nested, defs_and_reqs,
}

set_field-set_field :
    (p : Parsers) (v : Value) (d : String) → set_field p (set_field p v d) d ≡ set_field p v d
unfolding set_field
set_field-set_field p (text s) d = refl
set_field-set_field p (int bits n) d = ground arith
set_field-set_field p (uint bits n) d = ground arith
set_field-set_field p (float x) d = ground arith
set_field-set_field p (bool b) d = ground arith
set_field-set_field p (slice n) d = refl
set_field-set_field p (map_of n) d = refl
set_field-set_field p (other z) d = refl

visit-visit :
    (p : Parsers) (tags : Tags) (can_set : Bool) (v : Value)
    → visit p tags can_set (visit p tags can_set v).0 ≡ visit p tags can_set v
unfolding visit
visit-visit p tags can_set v = elim (Option-cases tags.default) [
  | inl h ↦ rw (visit, h) (ground arith)
  | inr (d, h) ↦ rw (visit, h) (ground (arith, set_field-set_field p v d))
]

-- An outcome that a second run repeats.
abbrev Repeats : Parsers → Option (Fields × List FieldPath) → Type 0
Repeats p none = Unit
Repeats p (some (gs, reqs)) = defs_and_reqs p gs ≡ some (gs, reqs)

after_leaf-Repeats :
    (p : Parsers) (name : String) (tags : Tags) (can_set : Bool) (v : Value)
    (r : Option (Fields × List FieldPath))
    → Repeats p r
    → Repeats p (after_leaf name tags can_set (visit p tags can_set v) r)
unfolding defs_and_reqs
after_leaf-Repeats p name tags can_set v none h = tt
after_leaf-Repeats p name tags can_set v (some (gs, reqs)) h =
    rw (defs_and_reqs, visit-visit p tags can_set v, h) refl

after_nested-Repeats :
    (p : Parsers) (name : String) (r s : Option (Fields × List FieldPath))
    → Repeats p r
    → Repeats p s
    → Repeats p (after_nested name r s)
unfolding defs_and_reqs
after_nested-Repeats p name none s h k = tt
after_nested-Repeats p name (some (sub, dive)) none h k = tt
after_nested-Repeats p name (some (sub, dive)) (some (gs, reqs)) h k = rw (defs_and_reqs, h, k) refl

defs_and_reqs-Repeats : (p : Parsers) (fs : Fields) → Repeats p (defs_and_reqs p fs)
unfolding defs_and_reqs
defs_and_reqs-Repeats p no_more = refl
defs_and_reqs-Repeats p (leaf name tags can_set v rest) =
    after_leaf-Repeats p name tags can_set v (defs_and_reqs p rest) (defs_and_reqs-Repeats p rest)
defs_and_reqs-Repeats p (nested name false sub rest) = tt
defs_and_reqs-Repeats p (nested name true sub rest) =
    after_nested-Repeats p name (defs_and_reqs p sub) (defs_and_reqs p rest)
      (defs_and_reqs-Repeats p sub) (defs_and_reqs-Repeats p rest)

-- DefaultsAndRequired on what it left: the same struct, and the same report.
pub defs_and_reqs_again :
    (p : Parsers) (fs gs : Fields) (reqs : List FieldPath)
    → defs_and_reqs p fs ≡ some (gs, reqs)
    → defs_and_reqs p gs ≡ some (gs, reqs)
defs_and_reqs_again p fs gs reqs h = subst (Repeats p) h (defs_and_reqs-Repeats p fs)

checked-complete :
    (r : Option (Fields × List FieldPath)) (gs : Fields)
    → checked r ≡ complete gs
    → r ≡ some (gs, [])
checked-complete none gs h = ground arith
checked-complete (some (fs, [])) gs h = ground arith
checked-complete (some (fs, r ∷ reqs)) gs h = ground arith

-- A struct that DefaultsAndRequired has accepted is accepted again, and left as it is.
pub defaults_and_required_again :
    (p : Parsers) (fs gs : Fields)
    → defaults_and_required p fs ≡ complete gs
    → defaults_and_required p gs ≡ complete gs
unfolding defaults_and_required
defaults_and_required_again p fs gs h =
    ap checked (defs_and_reqs_again p fs gs [] (checked-complete (defs_and_reqs p fs) gs h))
