-- ===== src/Conftool/Fields/Tests.antt =====
-- The theorems on DefaultsAndRequired at a concrete struct.
use goblocks.Prelude.Eq.{◌==◌, nat_eq, int_eq, string_eq}
use goblocks.Prelude.Int.{pos}
use goblocks.Prelude.{String, ◌≡◌, refl, true, none, some, [], ◌∷◌, if◌then◌else◌}
use goblocks.Conftool.Fields.{
  text, int, slice, Tags, Fields, no_more, leaf, nested, parsed, syntax_error, Parsers,
  defs_and_reqs,
}
use goblocks.Conftool.Fields.Again.{defs_and_reqs_again}

-- parsers that know the port and nothing else
abbrev parsers : Parsers
parsers = record {
  parse_int = λ s. if s == "8080" then parsed (pos 8080) else syntax_error;
  parse_duration = λ s. if s == "5m" then some (pos 300_000_000_000) else none;
  parse_uint = λ s. none;
  parse_float = λ s. none;
  parse_bool = λ s. none;
}

abbrev required : Tags
required = record { required = some "true"; default = none }

abbrev with_default : String → Tags
with_default d = record { required = none; default = some d }

-- HTTP { Port default:"8080"; Timeout default:"5m" }, Name required, Hosts required
abbrev config : Fields
config =
    nested "HTTP" true
      (leaf "Port" (with_default "8080") true (int 64 (pos 0))
        (leaf "Timeout" (with_default "5m") true (int 64 (pos 0)) no_more))
      (leaf "Name" required true (text "shop") (leaf "Hosts" required true (slice none) no_more))

abbrev completed : Fields
completed =
    nested "HTTP" true
      (leaf "Port" (with_default "8080") true (int 64 (pos 8080))
        (leaf "Timeout" (with_default "5m") true (int 64 (pos 300_000_000_000)) no_more))
      (leaf "Name" required true (text "shop") (leaf "Hosts" required true (slice none) no_more))

defs_and_reqs_again_tried : defs_and_reqs parsers completed ≡ some (completed, ("Hosts" ∷ []) ∷ [])
unfolding defs_and_reqs
defs_and_reqs_again_tried = defs_and_reqs_again parsers config completed (("Hosts" ∷ []) ∷ []) refl
