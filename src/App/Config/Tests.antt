-- ===== src/App/Config/Tests.antt =====
-- The theorem on readConfigData at a concrete document.
use goblocks.Prelude.Eq.{◌==◌, nat_eq, int_eq, string_eq}
use goblocks.Prelude.Int.{pos}
use goblocks.Prelude.Map.{get, put}
use goblocks.Prelude.{ℕ, String, ◌≡◌, refl, true, Option, none, some, [], ◌∷◌, if◌then◌else◌, All}
use goblocks.Conftool.Fields.{
  text, int, Fields, no_more, leaf, syntax_error, parsed, Parsers, is_field_empty,
  is_field_required, set_field, visit, defs_and_reqs, defaults_and_required,
}
use goblocks.App.Config.{
  StructValue, Application, read_config_data, root_nodes, decode_section, decode_services,
  finish_services, with_defaults,
}
use goblocks.App.Config.Complete.{IsComplete, names, read_config_data-IsComplete}

abbrev parsers : Parsers
parsers = record {
  parse_int = λ s. if s == "8080" then parsed (pos 8080) else syntax_error;
  parse_duration = λ s. none;
  parse_uint = λ s. none;
  parse_float = λ s. none;
  parse_bool = λ s. none;
}

-- A node is a text; a section's node gives the struct its one field's value.
abbrev decode : String → StructValue → Option Fields
decode s cfg =
    some (leaf "Name" (record { required = some "true"; default = none }) true (text s) no_more)

abbrev port : ℕ → StructValue
port n = record {
  typ = "app.Config";
  fields =
      leaf "Port" (record { required = none; default = some "8080" }) true (int 64 (pos n)) no_more;
}

abbrev name_of : String → StructValue
name_of s = record {
  typ = "shop.Config";
  fields = leaf "Name" (record { required = some "true"; default = none }) true (text s) no_more;
}

abbrev before : Application
before = record { cfg = port 0; service_defs = record { name = "shop"; config = name_of "" } ∷ [] }

abbrev after : Application
after = record {
  cfg = port 8080;
  service_defs = record { name = "shop"; config = name_of "corner" } ∷ [];
}

corner_shop :
    IsComplete parsers (port 8080)
    × All (λ s. IsComplete parsers s.config) after.service_defs
    × (names after.service_defs ≡ names before.service_defs)
unfolding get put read_config_data root_nodes decode_section decode_services finish_services
    with_defaults defaults_and_required defs_and_reqs visit is_field_empty is_field_required
    set_field
corner_shop =
    read_config_data-IsComplete parsers (λ s. s) decode before after
      (some (some ("shop" ∷ "corner" ∷ []))) refl
