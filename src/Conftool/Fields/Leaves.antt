-- ===== src/Conftool/Fields/Leaves.antt =====
-- What DefaultsAndRequired does to a struct, seen as the flat list of its leaves.
use goblocks.Prelude.{
  String, ◌≡◌, refl, ap, Bool, true, false, ◌&&◌, Option, none, some, List, [], ◌∷◌, ◌++◌, map,
  arith, if◌then◌else◌,
}
use goblocks.Conftool.Fields.{
  Value, Tags, Fields, no_more, leaf, nested, Parsers, is_field_required, is_field_empty, set_field,
  FieldPath, visit, defs_and_reqs,
}

pub record Leaf : Type 0 where
  pub path : FieldPath
  pub tags : Tags
  pub can_set : Bool
  pub value : Value

abbrev pub within : String → Leaf → Leaf
within name l = record l { path = name ∷ l.path }

-- All leaves of a struct, in the order of the fields.
abbrev pub leaves : Fields → List Leaf
leaves no_more = []
leaves (leaf name tags can_set v rest) =
    record { path = name ∷ []; tags = tags; can_set = can_set; value = v } ∷ leaves rest
leaves (nested name exported sub rest) = map (within name) (leaves sub) ++ leaves rest

abbrev pub is_none : Option String → Bool
is_none none = true
is_none (some d) = false

-- Whether a leaf has to be reported: it can be set, is empty, required, and has no default.
abbrev pub is_missing : Leaf → Bool
is_missing l =
    l.can_set && is_field_empty l.value && is_none l.tags.default && is_field_required l.tags

abbrev pub missing_paths : List Leaf → List FieldPath
missing_paths [] = []
missing_paths (l ∷ ls) = if is_missing l then l.path ∷ missing_paths ls else missing_paths ls

-- A leaf with its default, if it can be set and is empty.
abbrev pub filled : Parsers → Leaf → Leaf
filled p l = record l {
  value = elim l.tags.default [
    | none ↦ l.value
    | some d ↦ if l.can_set && is_field_empty l.value then set_field p l.value d else l.value
  ];
}

-- All structs within are exported.
abbrev pub IsExported : Fields → Type 0
IsExported no_more = Unit
IsExported (leaf name tags can_set v rest) = IsExported rest
IsExported (nested name exported sub rest) = (exported ≡ true) × IsExported sub × IsExported rest

visit-is_missing :
    (p : Parsers) (l : Leaf) → visit p l.tags l.can_set l.value ≡ ((filled p l).value, is_missing l)
unfolding visit
visit-is_missing p l = ground arith

missing_paths-within :
    (name : String) (ls : List Leaf)
    → missing_paths (map (within name) ls) ≡ map (λ d. name ∷ d) (missing_paths ls)
missing_paths-within name [] = refl
missing_paths-within name (l ∷ ls) = ground (arith, missing_paths-within name ls)

missing_paths-append :
    (ls ms : List Leaf) → missing_paths (ls ++ ms) ≡ missing_paths ls ++ missing_paths ms
missing_paths-append [] ms = refl
missing_paths-append (l ∷ ls) ms = ground (arith, missing_paths-append ls ms)

filled-within :
    (p : Parsers) (name : String) (ls : List Leaf)
    → map (within name) (map (filled p) ls) ≡ map (filled p) (map (within name) ls)
filled-within p name [] = refl
filled-within p name (l ∷ ls) = ap (◌∷◌ (within name (filled p l))) (filled-within p name ls)

map-filled-append :
    (p : Parsers) (ls ms : List Leaf)
    → map (filled p) (ls ++ ms) ≡ map (filled p) ls ++ map (filled p) ms
map-filled-append p [] ms = refl
map-filled-append p (l ∷ ls) ms = ap (◌∷◌ (filled p l)) (map-filled-append p ls ms)

-- The fields and the paths that defsAndReqs gives, as maps of the leaves.
pub defs_and_reqs-filled :
    (p : Parsers) (fs : Fields)
    → IsExported fs
    → (gs : Fields) × (defs_and_reqs p fs ≡ some (gs, missing_paths (leaves fs)))
      × (leaves gs ≡ map (filled p) (leaves fs))
unfolding defs_and_reqs
defs_and_reqs-filled p no_more e = (no_more, refl, refl)
defs_and_reqs-filled p (leaf name tags can_set v rest) e =
    let l : Leaf = record { path = name ∷ []; tags = tags; can_set = can_set; value = v } in
    let (gs, out, same) = defs_and_reqs-filled p rest e in
    (
      leaf name tags can_set (filled p l).value gs,
      rw (visit-is_missing p l, out) (ground arith),
      ap (◌∷◌ (filled p l)) same,
    )
defs_and_reqs-filled p (nested name exported sub rest) e =
    let (ss, dive, inner) = defs_and_reqs-filled p sub e.1 in
    let (gs, out, same) = defs_and_reqs-filled p rest e.2 in
    (
      nested name true ss gs,
      rw (e.0) (
          rw
            (
              dive,
              out,
              missing_paths-append (map (within name) (leaves sub)) (leaves rest),
              missing_paths-within name (leaves sub),
            )
            refl),
      rw
          (
            inner,
            same,
            map-filled-append p (map (within name) (leaves sub)) (leaves rest),
            filled-within p name (leaves sub),
          )
          refl,
    )
