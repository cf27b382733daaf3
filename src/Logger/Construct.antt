-- ===== src/Logger/Construct.antt =====
-- log/logger.go: New, the methods of the levels, the logger in a context, and the level of SlogHandler.
-- Building the zap logger is a parameter; an error of it is a number.
mod Tests
use goblocks.Prelude.Eq.{◌==◌, nat_eq, int_eq, string_eq}
use goblocks.Prelude.Int.{ℤ, pos, negsuc}
use goblocks.Prelude.Map
use goblocks.Prelude.Map.{Map, get, put, get-put}
use goblocks.Prelude.{
  ℕ, String, ◌≡◌, refl, ap, ◌∙◌, ◌⊎◌, inl, inr, Bool, true, false, not, Option, none, some, List,
  [], ◌∷◌,
}
use goblocks.Logger.{
  Level, debug, info, warn, error, dpanic, panic, fatal, level_value, Field, Entry, Logger, log,
  new,
}

-- the keys of zapLevels
abbrev pub level_name : Level → String
level_name debug = "debug"
level_name info = "info"
level_name warn = "warn"
level_name error = "error"
level_name dpanic = "dpanic"
level_name panic = "panic"
level_name fatal = "fatal"

abbrev pub zap_levels : Map String ℤ
zap_levels =
    ("debug", negsuc 0)
    ∷ ("info", pos 0)
    ∷ ("warn", pos 1)
    ∷ ("error", pos 2)
    ∷ ("dpanic", pos 3)
    ∷ ("panic", pos 4)
    ∷ ("fatal", pos 5)
    ∷ []

-- zapLevels[level], the zero value for a missing key
pub zap_level : String → ℤ
zap_level level = elim (get zap_levels level) [ none ↦ pos 0 | some l ↦ l ]

-- what New sets in zap's production configuration; `sampling` is whether that is kept
pub record ZapConfig : Type 0 where
  pub disable_caller : Bool
  pub sampling : Bool
  pub level : ℤ
  pub encoding : String
  pub time_key : String
  pub disable_stacktrace : Bool

pub zap_config : String → ZapConfig
unfolding zap_level
zap_config level = record {
  disable_caller = not (level == "debug");
  sampling = level == "debug";
  level = zap_level level;
  encoding = "json";
  time_key = "time";
  disable_stacktrace = true;
}

-- New
pub new_logger : (ZapConfig → Option ℕ) → String → Bool → ℕ ⊎ Logger
unfolding zap_config
new_logger build level oneline = elim (build (zap_config level)) [
  | some e ↦ inl e
  | none ↦ inr (new oneline)
]

-- Debug, Info, Warn, Error, DPanic, Panic and Fatal
pub log_at : Level → Logger → String → List Field → Logger × List Entry
log_at v l msg fields = log l (level_value v) msg fields

-- the values of a context, by key
pub data ContextValue : Type 0 where
  meta_logger : Logger → ContextValue
  another_value : ℕ → ContextValue

abbrev pub Context : Type 0
Context = Map String ContextValue

abbrev pub context_meta_logger : String
context_meta_logger = "ContextMetaLogger"

-- SetContextLogger
pub set_context_logger : Logger → Context → Context
set_context_logger l ctx = put ctx context_meta_logger (meta_logger l)

-- the type assertion of GetContextLogger; `none` is the panic
abbrev pub as_logger : Option ContextValue → Option Logger
as_logger (some (meta_logger l)) = some l
as_logger (some (another_value n)) = none
as_logger none = none

-- GetContextLogger
pub get_context_logger : Context → Option Logger
get_context_logger ctx = as_logger (get ctx context_meta_logger)

-- logLevels, in slog's numbers; the zero value for a missing key is slog.LevelInfo
pub slog_level : Level → ℤ
slog_level debug = negsuc 3
slog_level info = pos 0
slog_level warn = pos 4
slog_level error = pos 8
slog_level _ = pos 0

-- The logger that was put into a context is found there, until another is, whatever other values
-- the context gets.
get-set_context_logger :
    (ctx : Context) (l : Logger) (key : String) (v : ContextValue)
    → (key == context_meta_logger) ≡ false
    → get_context_logger (put (set_context_logger l ctx) key v) ≡ some l
unfolding get_context_logger set_context_logger
get-set_context_logger ctx l key v other =
    let kept : get (put (put ctx context_meta_logger (meta_logger l)) key v) context_meta_logger
        ≡ some (meta_logger l) =
      get-put (put ctx context_meta_logger (meta_logger l)) key context_meta_logger v
      ∙ (rw (other) (get-put ctx context_meta_logger context_meta_logger (meta_logger l))) in
    ap as_logger kept

-- New knows each level by its name.
zap_level-level_name : (v : Level) → zap_level (level_name v) ≡ level_value v
unfolding zap_level level_value get
zap_level-level_name debug = refl
zap_level-level_name info = refl
zap_level-level_name warn = refl
zap_level-level_name error = refl
zap_level-level_name dpanic = refl
zap_level-level_name panic = refl
zap_level-level_name fatal = refl
