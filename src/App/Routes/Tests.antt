-- ===== src/App/Routes/Tests.antt =====
-- The routes of two services.
use goblocks.Prelude.{ℕ, String, ◌≡◌, refl, Bool, true, false, List, [], ◌∷◌}
use goblocks.App.Services.{HandlerDefinition}
use goblocks.App.Routes.{Handlers}
use goblocks.App.Routes.Complete.{some_mixed}

abbrev handler : String → Bool → HandlerDefinition ℕ
handler path sid = record {
  endpoint = path;
  method = "GET";
  path = path;
  func = 0;
  sid_required = sid;
}

abbrev services : List (Handlers ℕ)
services =
    ("shop", handler "cart" true ∷ handler "/list" false ∷ [])
    ∷ ("news", handler "today" false ∷ [])
    ∷ []

not_mixed : some_mixed services ≡ false
not_mixed = refl
