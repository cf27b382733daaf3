-- ===== src/App/Services/Sessions.antt =====
-- Which handlers addHandlers registers with a session getter.
use goblocks.Prelude.{
  String, ◌≡◌, refl, inl, inr, Bool, true, false, ◌||◌, List, [], ◌∷◌, ◌++◌, map, if◌then◌else◌,
  Bool-cases,
}
use goblocks.App.Services.{HandlerDefinition, Registered, add_handlers}

module _ {H : Type 0} where
  -- the handlers before the first that wants no session
  abbrev pub leading : List (HandlerDefinition H) → List (HandlerDefinition H)
  leading [] = []
  leading (h ∷ hs) = if h.sid_required then h ∷ leading hs else []

  -- the handlers from that one on, as far as none wants a session
  abbrev pub free : List (HandlerDefinition H) → List (HandlerDefinition H)
  free [] = []
  free (h ∷ hs) = if h.sid_required then [] else h ∷ free hs

  abbrev pub after_leading : List (HandlerDefinition H) → List (HandlerDefinition H)
  after_leading [] = []
  after_leading (h ∷ hs) = if h.sid_required then after_leading hs else h ∷ hs

  -- whether a handler that wants a session follows one that wants none
  abbrev pub some_required : List (HandlerDefinition H) → Bool
  some_required [] = false
  some_required (h ∷ hs) = h.sid_required || some_required hs

  abbrev pub registered : String → Bool → List (HandlerDefinition H) → List (Registered H)
  registered service getter hs =
      map (λ h. record { service = service; definition = h; has_getter = getter }) hs

  add_handlers_without :
      (service : String) (hs : List (HandlerDefinition H))
      → add_handlers service hs false
        ≡ record { calls = registered service false (free hs); fatal = some_required hs }
  unfolding add_handlers
  add_handlers_without service [] = refl
  add_handlers_without service (h ∷ hs) = elim (Bool-cases h.sid_required) [
    | inl q ↦ rw (add_handlers, q) refl
    | inr q ↦ rw (add_handlers, q, add_handlers_without service hs) refl
  ]

  -- addHandlers with a session getter registers with it the handlers before the first that wants no
  -- session, and without it the ones after, up to the next that wants a session: there, if there is
  -- one, the program ends, and no later handler is registered.
  pub add_handlers_lem :
      (service : String) (hs : List (HandlerDefinition H))
      → add_handlers service hs true ≡ record {
        calls =
            registered service true (leading hs)
            ++ registered service false (free (after_leading hs));
        fatal = some_required (after_leading hs);
      }
  unfolding add_handlers
  add_handlers_lem service [] = refl
  add_handlers_lem service (h ∷ hs) = elim (Bool-cases h.sid_required) [
    | inl q ↦ rw (add_handlers, q, add_handlers_lem service hs) refl
    | inr q ↦ rw (add_handlers, q, add_handlers_without service hs) refl
  ]
