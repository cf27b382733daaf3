-- ===== src/App/Services/Tests.antt =====
-- The theorem on addHandlers at a concrete list, and RegisterService on names.
use goblocks.Prelude.{ℕ, String, ◌≡◌, refl, Bool, true, false, [], ◌∷◌, ◌++◌}
use goblocks.Conftool.Fields.{no_more}
use goblocks.App.Services.{HandlerDefinition, add_handlers, register_service}
use goblocks.App.Services.Sessions.{registered, add_handlers_lem}

abbrev handler : String → Bool → HandlerDefinition ℕ
handler path sid = record {
  endpoint = path;
  method = "GET";
  path = path;
  func = 0;
  sid_required = sid;
}

cart_and_list :
    add_handlers "shop" (handler "cart" true ∷ handler "list" false ∷ handler "pay" true ∷ []) true
    ≡ record {
      calls =
          registered "shop" true (handler "cart" true ∷ [])
          ++ registered "shop" false (handler "list" false ∷ []);
      fatal = true;
    }
cart_and_list =
    add_handlers_lem "shop" (handler "cart" true ∷ handler "list" false ∷ handler "pay" true ∷ [])

-- a name that is no unquoted key is registered
odd_name : (register_service [] "1: a!" (record { typ = "T"; fields = no_more })).1 ≡ true
unfolding register_service
odd_name = refl
