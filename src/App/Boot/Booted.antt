-- ===== src/App/Boot/Booted.antt =====
-- What an application is like that has read its configuration from the file and comes to run.
use goblocks.Prelude.Text.{Text}
use goblocks.Prelude.{
  ℕ, ◌+◌, ◌≡◌, refl, ap, ◌∙◌, ◌⊎◌, inl, inr, false, Option, none, some, List, [], ◌∷◌, arith,
  if◌then◌else◌, length, All,
}
use mathlib.Core.Path.{subst}
use goblocks.Conftool.EnvVars.{parse_env_vars}
use goblocks.Conftool.Fields.{Parsers}
use goblocks.App.Config.{RegisteredService, Application, Outcome, ok, err, panic, read_config_data}
use goblocks.App.Config.Complete.{IsComplete, names, read_config_data-IsComplete}
use goblocks.App.Startup.{Factory, start}
use goblocks.App.Startup.Readiness.{Waits, IsUnready, start-IsUnready}
use goblocks.App.Startup.Readiness
use goblocks.HttpServer.Listener.{Host, Platform, ListenerError, Listener, new_server}
use goblocks.HttpServer.Listener.Certificates.{is_late, Secured, Opened, new_server-Opened}
use goblocks.App.Boot.{
  Stop, usage, Boot, up, stopped, endless, ◌>>=◌, from_outcome, from_result, from_env, unless,
  no_absolute_path, unreadable_config, no_maxprocs, no_metrics, no_logger, no_sentry, Process,
  read_config_file, read_config, prepare, Ran, running, no_http_server, stopped_before,
  still_reading, by_name, with_services, with_servers, run,
}

>>=-eq-up :
    {A B : Type 0} (m : Boot A) (f : A → Boot B) (b : B)
    → (m >>= f) ≡ up b
    → (a : A) × (m ≡ up a) × (f a ≡ up b)
>>=-eq-up (up a) f b h = (a, refl, h)
>>=-eq-up (stopped s) f b h = cc
>>=-eq-up endless f b h = cc

up_inj : {A : Type 0} (a b : A) → up a ≡ up b → a ≡ b
up_inj a b h = cc

unless-eq-up :
    {A : Type 0} (stop : ℕ → Stop) (r : Option ℕ) (a b : A) → unless stop r a ≡ up b → a ≡ b
unless-eq-up stop none a b h = up_inj a b h
unless-eq-up stop (some e) a b h = cc

from_outcome-eq-up : {A : Type 0} (o : Outcome A) (a : A) → from_outcome o ≡ up a → o ≡ ok a
from_outcome-eq-up (ok a) b h = ap ok (up_inj a b h)
from_outcome-eq-up (err e) b h = cc
from_outcome-eq-up panic b h = cc

-- The configuration of the application and those of its services, which are the services of `a`, are
-- complete.
abbrev pub Configured : Parsers → Application → Application → Type 0
Configured p a b =
    IsComplete p b.cfg
    × All (λ s. IsComplete p s.config) b.service_defs
    × (names b.service_defs ≡ names a.service_defs)

module _ {N : Type 0} (p : Parsers) (os : Process N) where
  read_config_file-Configured :
      (fuel : ℕ) (a : Application) (x : Text × Application)
      → read_config_file p os fuel a ≡ up x
      → Configured p a x.1
  unfolding read_config_file
  read_config_file-Configured fuel a x h0 =
      let (name, q0, h1) =
        >>=-eq-up (elim os.config_file [ [] ↦ stopped usage | c ∷ cs ↦ up (c ∷ cs) ]) _ x h0 in
      let (full_name, q1, h2) =
        >>=-eq-up (from_result no_absolute_path (os.absolute name)) _ x h1 in
      let (raw, q2, h3) =
        >>=-eq-up (from_result unreadable_config (os.read_file full_name)) _ x h2 in
      let (text, q3, h4) = >>=-eq-up (from_env (parse_env_vars fuel os.getenv raw)) _ x h3 in
      let (b, q4, h5) =
        >>=-eq-up (from_outcome (read_config_data p os.value os.decode a (os.unmarshal text))) _ x
          h4 in
      subst (λ (y : Text × Application). Configured p a y.1) (up_inj (os.dir name, b) x h5)
        (read_config_data-IsComplete p os.value os.decode a b (os.unmarshal text)
          (from_outcome-eq-up (read_config_data p os.value os.decode a (os.unmarshal text)) b q4))

  prepare-Configured :
      (fuel : ℕ) (a : Application) (x : Text × Application)
      → prepare p os fuel a none ≡ up x
      → Configured p a x.1
  unfolding prepare read_config
  prepare-Configured fuel a x h0 =
      let (set, q0, h1) = >>=-eq-up (unless no_maxprocs os.maxprocs false) _ x h0 in
      let (b, q1, h2) = >>=-eq-up (read_config_file p os fuel a) _ x h1 in
      let (c, q2, h3) = >>=-eq-up (unless no_metrics (os.new_registry b.1.cfg) b) _ x h2 in
      let (d, q3, h4) = >>=-eq-up (unless no_logger (os.new_logger c.1.cfg) c) _ x h3 in
      let same : b ≡ x =
        unless-eq-up no_metrics (os.new_registry b.1.cfg) b c q2
        ∙ unless-eq-up no_logger (os.new_logger c.1.cfg) c d q3
        ∙ unless-eq-up no_sentry (os.new_sentry d.1.cfg) d x h4 in
      subst (λ (y : Text × Application). Configured p a y.1) same
        (read_config_file-Configured fuel a b q1)

names-by_name :
    (services : List RegisteredService) → Readiness.names (by_name services) ≡ names services
names-by_name [] = refl
names-by_name (s ∷ services) = ap (◌∷◌ s.name) (names-by_name services)

module _ {N Svc : Type 0} (platform : Platform) (p : Parsers) (os : Process N)
    (factory : Factory Svc) (a : Application) (h : Host) where
  -- What Run leaves up to runEverything, on the host `h`, with the services of `a` registered.
  abbrev pub Booted : Host × Ran platform Svc → Type 0
  Booted (end, running r) =
      Configured p a r.app
      × (end.listening ≡ (os.http r.app.cfg).port ∷ h.listening)
      × Secured platform (os.http r.app.cfg) end r.listener
      × IsUnready (names a.service_defs) r.services
  Booted (end, no_http_server e) =
      length end.listening ≡ length h.listening + (if is_late e then 1 else 0)
  Booted (end, stopped_before s) = end ≡ h
  Booted (end, still_reading) = end ≡ h

  served-Booted :
      (path : Text) (b : Application) (made : Host × (ListenerError ⊎ Listener platform))
      → Waits factory
      → Configured p a b
      → Opened platform (os.http b.cfg) h.listening made
      → Booted (with_services factory (path, b) made)
  served-Booted path b (end, inl e) waits read opened = ground (arith, opened)
  served-Booted path b (end, inr l) waits read opened = (
    read,
    opened.0,
    opened.1,
    subst (λ ns. IsUnready ns (start factory (by_name b.service_defs)))
        (names-by_name b.service_defs ∙ read.2)
        (start-IsUnready factory (by_name b.service_defs) waits),
  )

  prepared-Booted :
      (m : Boot (Text × Application))
      → Waits factory
      → ((x : Text × Application) → m ≡ up x → Configured p a x.1)
      → Booted (with_servers platform os factory h m)
  prepared-Booted (up (path, b)) waits read =
      served-Booted path b (new_server platform (os.http b.cfg) h) waits (read (path, b) refl)
        (new_server-Opened platform (os.http b.cfg) h)
  prepared-Booted (stopped s) waits read = refl
  prepared-Booted endless waits read = refl

  -- If no factory reports that the application is ready, Run without a configuration of its own, which
  -- reads the file, does one of these up to runEverything. It opens the HTTP server: then the
  -- application's configuration and those of all registered services are complete, the port of the
  -- configuration is taken, its listener has TLS just when the configuration asks for it, then with a
  -- certificate of the configured key file and the verification of clients as configured, against the
  -- contents of the client CA file if one is named, the services, if none of them fails, are those
  -- registered, and the application is not ready yet. It ends the program in NewServer, and the port is
  -- taken only if the certificates are at fault. It ends the program before, or is still replacing
  -- environment variables when the fuel is spent, and nothing listens that did not before.
  pub run-Booted : (fuel : ℕ) → Waits factory → Booted (run platform p os factory fuel a none h)
  unfolding run
  run-Booted fuel waits =
      prepared-Booted (prepare p os fuel a none) waits (prepare-Configured p os fuel a)
