-- ===== src/App/Boot.antt =====
-- app/app.go, Run, up to runEverything, with readConfigStruct and readConfigFile of
-- app/config_reader.go: the stages in their order, each of which can end the program. What the stages
-- ask of the system and of other packages is a record of parameters; an error of theirs is a number.
pub mod Booted
mod Tests
use goblocks.Prelude.Text.{Text}
use goblocks.Prelude.Eq.{nat_eq, int_eq, string_eq}
use goblocks.Prelude.Map
use goblocks.Prelude.Map.{Map}
use goblocks.Prelude.{ℕ, String, ◌⊎◌, inl, inr, false, Option, none, some, List, [], ◌∷◌}
use goblocks.Conftool.EnvVars.{parse_env_vars}
use goblocks.Conftool.Fields.{Fields, Parsers}
use goblocks.App.Config.{
  StructValue, RegisteredService, Application, ConfigError, Outcome, ok, err, panic, Section,
  read_config_data, apply_config_struct,
}
use goblocks.App.Startup.{Factory, Started, start}
use goblocks.HttpServer.Listener.{Config, Host, Platform, ListenerError, Listener, new_server}

-- where Run ends the program
pub data Stop : Type 0 where
  no_maxprocs no_current_dir no_absolute_path unreadable_config : ℕ → Stop
  usage config_panics : Stop
  bad_config : ConfigError → Stop
  no_metrics no_logger no_sentry : ℕ → Stop

-- `endless` is a call that has not returned with the fuel given
pub data Boot {ℓ} (A : Type ℓ) : Type ℓ where
  up : A → Boot A
  stopped : Stop → Boot A
  endless : Boot A

infixl 5 ◌>>=◌
abbrev pub ◌>>=◌ {ℓ κ} : {A : Type ℓ} {B : Type κ} → Boot A → (A → Boot B) → Boot B
up a >>= f = f a
stopped s >>= f = stopped s
endless >>= f = endless

abbrev pub from_outcome {ℓ} : {A : Type ℓ} → Outcome A → Boot A
from_outcome (ok a) = up a
from_outcome (err e) = stopped (bad_config e)
from_outcome panic = stopped config_panics

abbrev pub from_result {ℓ} : {A : Type ℓ} → (ℕ → Stop) → ℕ ⊎ A → Boot A
from_result stop (inl e) = stopped (stop e)
from_result stop (inr a) = up a

abbrev pub from_env : Option Text → Boot Text
from_env none = endless
from_env (some text) = up text

abbrev pub unless {ℓ} : {A : Type ℓ} → (ℕ → Stop) → Option ℕ → A → Boot A
unless stop none a = up a
unless stop (some e) a = stopped (stop e)

-- `N` are the nodes of a YAML document
pub record Process (N : Type 0) : Type 0 where
  pub maxprocs : Option ℕ
  pub getwd : ℕ ⊎ Text
  -- the flag --config-file
  pub config_file : Text
  -- filepath.Dir and filepath.Abs
  pub dir : Text → Text
  pub absolute : Text → ℕ ⊎ Text
  pub read_file : Text → ℕ ⊎ Text
  pub getenv : Text → Text
  -- yaml.Unmarshal, as readConfigData takes it
  pub unmarshal : Text → Option (Option (List N))
  pub value : N → String
  pub decode : N → StructValue → Option Fields
  -- the failures of metrics.NewRegistry, log.New and sentry.NewService
  pub new_registry : StructValue → Option ℕ
  pub new_logger : StructValue → Option ℕ
  pub new_sentry : StructValue → Option ℕ
  -- the section of the HTTP server
  pub http : StructValue → Config

module _ {N : Type 0} (p : Parsers) (os : Process N) where
  pub read_config_struct : Application → Option (List Section) → Boot (Text × Application)
  read_config_struct a config = do
    pwd ← from_result no_current_dir os.getwd
    b ← from_outcome (apply_config_struct p a config)
    up (pwd, b)

  -- `fuel` bounds the replacements of ParseEnvVars; printConfig is left out
  pub read_config_file : ℕ → Application → Boot (Text × Application)
  read_config_file fuel a = do
    name ← elim os.config_file [ [] ↦ stopped usage | c ∷ cs ↦ up (c ∷ cs) ]
    full_name ← from_result no_absolute_path (os.absolute name)
    raw ← from_result unreadable_config (os.read_file full_name)
    text ← from_env (parse_env_vars fuel os.getenv raw)
    b ← from_outcome (read_config_data p os.value os.decode a (os.unmarshal text))
    up (os.dir name, b)

  -- the configuration given to Run, or the file
  pub read_config : ℕ → Application → Option (Option (List Section)) → Boot (Text × Application)
  unfolding read_config_struct read_config_file
  read_config fuel a (some config) = read_config_struct a config
  read_config fuel a none = read_config_file fuel a

  -- Run up to NewServer
  pub prepare : ℕ → Application → Option (Option (List Section)) → Boot (Text × Application)
  unfolding read_config
  prepare fuel a config = do
    set ← unless no_maxprocs os.maxprocs false
    b ← read_config fuel a config
    b ← unless no_metrics (os.new_registry b.1.cfg) b
    b ← unless no_logger (os.new_logger b.1.cfg) b
    unless no_sentry (os.new_sentry b.1.cfg) b

-- Run when it comes to runEverything; a.cfgPath, the application, the listener of the HTTP server, and
-- what the loop over the services has left.
pub record Running (os : Platform) (Svc : Type 0) : Type 0 where
  pub cfg_path : Text
  pub app : Application
  pub listener : Listener os
  pub services : Started Svc

abbrev pub by_name : List RegisteredService → Map String RegisteredService
by_name [] = []
by_name (s ∷ services) = (s.name, s) ∷ by_name services

-- How far Run comes: to runEverything, or to an end of the program before NewServer or in it.
pub data Ran (os : Platform) (Svc : Type 0) : Type 0 where
  running : Running os Svc → Ran os Svc
  stopped_before : Stop → Ran os Svc
  no_http_server : ListenerError → Ran os Svc
  still_reading : Ran os Svc

-- the end of Run from the outcome of NewServer on; statserver.New cannot fail
abbrev pub with_services :
    {os : Platform} {Svc : Type 0}
    → Factory Svc
    → Text × Application
    → Host × (ListenerError ⊎ Listener os)
    → Host × Ran os Svc
with_services factory (path, a) (h, inl e) = (h, no_http_server e)
with_services factory (path, a) (h, inr l) = (
  h,
  running (record {
    cfg_path = path;
    app = a;
    listener = l;
    services = start factory (by_name a.service_defs);
  }),
)

-- Run, from what prepare has left
abbrev pub with_servers :
    {N Svc : Type 0} (platform : Platform)
    → Process N
    → Factory Svc
    → Host
    → Boot (Text × Application)
    → Host × Ran platform Svc
with_servers platform os factory h (up (path, a)) =
    with_services factory (path, a) (new_server platform (os.http a.cfg) h)
with_servers platform os factory h (stopped s) = (h, stopped_before s)
with_servers platform os factory h endless = (h, still_reading)

-- Run up to runEverything
pub run :
    {N Svc : Type 0} (platform : Platform)
    → Parsers
    → Process N
    → Factory Svc
    → ℕ
    → Application
    → Option (Option (List Section))
    → Host
    → Host × Ran platform Svc
unfolding prepare
run platform p os factory fuel a config h =
    with_servers platform os factory h (prepare p os fuel a config)
