-- ===== src/App/Services.antt =====
-- app/app.go: RegisterService, and addHandlers, which gives the HTTP server the handlers of a service.
pub mod Sessions
mod Tests
use goblocks.Prelude.Text.{Text, codes}
use goblocks.Prelude.Eq.{nat_eq, int_eq, string_eq}
use goblocks.Prelude.Map
use goblocks.Prelude.Map.{Map, put}
use goblocks.Prelude.{
  ℕ, String, Bool, true, false, not, ◌&&◌, ◌||◌, List, [], ◌∷◌, leb, if◌then◌else◌,
}
use goblocks.App.Config.{StructValue, RegisteredService}

abbrev pub is_letter : ℕ → Bool
is_letter c = leb b'a' c && leb c b'z' || leb b'A' c && leb c b'Z'

-- reName.MatchString: the expression is not anchored, so it asks for one letter anywhere
pub matches_name : Text → Bool
matches_name [] = false
matches_name (c ∷ cs) = if is_letter c then true else matches_name cs

-- RegisterService; a config that is no pointer is copied behind one. `false` is
-- errInvalidServiceName.
pub register_service :
    Map String RegisteredService → String → StructValue → Map String RegisteredService × Bool
unfolding matches_name
register_service defs name cfg =
    if not (matches_name (codes name))
    then (defs, false)
    else (put defs name (record { name = name; config = cfg }), true)

-- HandlerDefinition with its options; `H` stands for the handler functions
pub record HandlerDefinition (H : Type 0) : Type 0 where
  pub endpoint : String
  pub method : String
  pub path : String
  pub func : H
  pub sid_required : Bool

-- A call of HandleFunc, with whether it was given a session getter.
pub record Registered (H : Type 0) : Type 0 where
  pub service : String
  pub definition : HandlerDefinition H
  pub has_getter : Bool

-- What addHandlers has done: all calls of HandleFunc, and whether it reached logger.Fatal.
pub record Added (H : Type 0) : Type 0 where
  pub calls : List (Registered H)
  pub fatal : Bool

abbrev pub prepend : {H : Type 0} → Registered H → Added H → Added H
prepend c a = record a { calls = c ∷ a.calls }

-- addHandlers; `getter` is whether sessionGetter is not nil, which the loop changes
pub add_handlers : {H : Type 0} → String → List (HandlerDefinition H) → Bool → Added H
add_handlers service [] getter = record { calls = []; fatal = false }
add_handlers service (h ∷ handlers) getter =
    let kept =
      prepend (record { service = service; definition = h; has_getter = getter })
        (add_handlers service handlers getter) in
    let dropped =
      prepend (record { service = service; definition = h; has_getter = false })
        (add_handlers service handlers false) in
    if not h.sid_required
    then dropped
    else if not getter
    then record { calls = []; fatal = true }
    else kept
