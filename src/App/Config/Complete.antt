-- ===== src/App/Config/Complete.antt =====
-- What a configuration that was read without an error is like.
use goblocks.Prelude.Eq.{nat_eq, int_eq, string_eq}
use goblocks.Prelude.Map.{Map}
use goblocks.Prelude.{
  String, ◌≡◌, refl, sym, ap, ◌∙◌, Option, none, some, List, [], ◌∷◌, map, arith, All,
}
use goblocks.Conftool.Fields.{
  Fields, Parsers, Checked, complete, not_set, panics, defaults_and_required,
}
use goblocks.Conftool.Fields.Again.{defaults_and_required_again}
use goblocks.App.Config.{
  StructValue, RegisteredService, Application, Outcome, ok, err, panic, ◌>>=◌, required_set,
  with_defaults, root_nodes, decode_section, decode_services, finish_services, read_config_data,
}

-- DefaultsAndRequired accepts the struct and has nothing to change in it.
abbrev pub IsComplete : Parsers → StructValue → Type 0
IsComplete p cfg = defaults_and_required p cfg.fields ≡ complete cfg.fields

abbrev pub names : List RegisteredService → List String
names services = map (λ s. s.name) services

>>=-eq-ok :
    {A B : Type 0} (m : Outcome A) (f : A → Outcome B) (b : B)
    → (m >>= f) ≡ ok b
    → (a : A) × (m ≡ ok a) × (f a ≡ ok b)
>>=-eq-ok (ok a) f b h = (a, refl, h)
>>=-eq-ok (err e) f b h = cc
>>=-eq-ok panic f b h = cc

ok_inj : {A : Type 0} (a b : A) → ok a ≡ ok b → a ≡ b
ok_inj a b h = cc

required_set-complete :
    (name typ : String) (c : Checked) (cfg : StructValue)
    → required_set name typ c ≡ ok cfg
    → c ≡ complete cfg.fields
required_set-complete name typ (complete fs) cfg h = ground arith
required_set-complete name typ (not_set fs reqs) cfg h = ground arith
required_set-complete name typ panics cfg h = ground arith

with_defaults-IsComplete :
    (p : Parsers) (name : String) (cfg done : StructValue)
    → with_defaults p name cfg ≡ ok done
    → IsComplete p done
unfolding with_defaults
with_defaults-IsComplete p name cfg done h =
    defaults_and_required_again p cfg.fields done.fields
      (required_set-complete name cfg.typ (defaults_and_required p cfg.fields) done h)

finish_services-IsComplete :
    (p : Parsers) (services out : List RegisteredService)
    → finish_services p services ≡ ok out
    → All (λ s. IsComplete p s.config) out × (names out ≡ names services)
unfolding finish_services
finish_services-IsComplete p [] out h = rw (sym (ok_inj [] out h)) (tt, refl)
finish_services-IsComplete p (s ∷ services) out h =
    let (cfg, first, then_rest) = >>=-eq-ok (with_defaults p s.name s.config) _ out h in
    let (rest, second, last) = >>=-eq-ok (finish_services p services) _ out then_rest in
    let (each, same) = finish_services-IsComplete p services rest second in
    rw (sym (ok_inj (record s { config = cfg } ∷ rest) out last))
      ((with_defaults-IsComplete p s.name s.config cfg first, each), ap (◌∷◌ s.name) same)

module _ {N : Type 0} (p : Parsers) (value : N → String)
    (decode : N → StructValue → Option Fields) where
  decode_services-names :
      (nodes : Map String N) (services out : List RegisteredService)
      → decode_services p value decode nodes services ≡ ok out
      → names out ≡ names services
  unfolding decode_services
  decode_services-names nodes [] out h = rw (sym (ok_inj [] out h)) refl
  decode_services-names nodes (s ∷ services) out h =
      let (cfg, first, then_rest) =
        >>=-eq-ok (decode_section p value decode nodes s.name s.config) _ out h in
      let (rest, second, last) =
        >>=-eq-ok (decode_services p value decode nodes services) _ out then_rest in
      rw (sym (ok_inj (record s { config = cfg } ∷ rest) out last))
        (ap (◌∷◌ s.name) (decode_services-names nodes services rest second))

  -- A document that readConfigData accepts leaves the application's configuration and that of each
  -- registered service complete: DefaultsAndRequired accepts it and has nothing to add. The services
  -- and their order stay as they were.
  pub read_config_data-IsComplete :
      (a b : Application) (root : Option (Option (List N)))
      → read_config_data p value decode a root ≡ ok b
      → IsComplete p b.cfg
        × All (λ s. IsComplete p s.config) b.service_defs
        × (names b.service_defs ≡ names a.service_defs)
  unfolding read_config_data
  read_config_data-IsComplete a b none h = cc
  read_config_data-IsComplete a b (some none) h = cc
  read_config_data-IsComplete a b (some (some content)) h =
      let (nodes, r0, h0) = >>=-eq-ok (root_nodes p value decode [] content) _ b h in
      let (app, r1, h1) = >>=-eq-ok (decode_section p value decode nodes "app" a.cfg) _ b h0 in
      let (cfg, r2, h2) = >>=-eq-ok (with_defaults p "app" app) _ b h1 in
      let (services, r3, h3) =
        >>=-eq-ok (decode_services p value decode nodes a.service_defs) _ b h2 in
      let (finished, r4, h4) = >>=-eq-ok (finish_services p services) _ b h3 in
      let (each, same) = finish_services-IsComplete p services finished r4 in
      rw (sym (ok_inj (record { cfg = cfg; service_defs = finished }) b h4)) (
        with_defaults-IsComplete p "app" app cfg r2,
        each,
        same ∙ decode_services-names nodes a.service_defs services r3,
      )
