-- ===== src/Logger.antt =====
-- log/logger.go: fields, and the one-line mode, in which calls are gathered
-- until Flush. A direct log is an entry handed to the zap logger, at the end of what it was handed.
-- log, Flush, Add and With are modelled for fields on which convert does not panic; when it does is
-- in Logger/Convert.
pub mod Gathering
pub mod Convert
pub mod Fields
pub mod Construct
mod Tests
use goblocks.Prelude.Eq.{◌==◌, nat_eq, int_eq, string_eq}
use goblocks.Prelude.Int.{ℤ, pos, negsuc, ltb_ℤ, int_beq}
use goblocks.Prelude.Map
use goblocks.Prelude.Map.{Map}
use goblocks.Prelude.{
  ℕ, String, Bool, true, false, not, ◌&&◌, ◌||◌, Option, none, some, List, [], ◌∷◌, ◌++◌,
  if◌then◌else◌,
}

-- zap's levels
pub data Level : Type 0 where
  debug info warn error dpanic panic fatal : Level

-- int(zap.DebugLevel) is -1
unfoldable pub level_value : Level → ℤ
level_value debug = negsuc 0
level_value info = pos 0
level_value warn = pos 1
level_value error = pos 2
level_value dpanic = pos 3
level_value panic = pos 4
level_value fatal = pos 5

-- int(zap.DebugLevel) - 1
abbrev pub zero_level : ℤ
zero_level = negsuc 1

pub data FieldType : Type 0 where
  bool_type int_type intp_type float64_type float64p_type string_type strings_type : FieldType
  stringp_type error_type time_type duration_type any_type message_type : FieldType

-- What Interface holds, by its dynamic type. Floats are named by a number.
pub data Dynamic : Type 0 where
  nil : Dynamic
  float_pointer : Option ℕ → Dynamic
  strings : List String → Dynamic
  string_pointer : Option String → Dynamic
  time : ℕ → Dynamic
  duration : ℤ → Dynamic
  -- an error, by its text
  an_error : String → Dynamic
  any_value : ℕ → Dynamic

pub record Field : Type 0 where
  pub key : String
  pub typ : FieldType
  pub integer : ℤ
  pub float64 : ℕ
  pub string : String
  pub interface : Dynamic

-- the fields that a constructor leaves out have their zero value; the zero float is number 0
abbrev blank : String → FieldType → Field
blank key typ = record {
  key = key;
  typ = typ;
  integer = pos 0;
  float64 = 0;
  string = "";
  interface = nil;
}

pub bool_field : String → Bool → Field
bool_field key val = record (blank key bool_type) { integer = if val then pos 1 else pos 0 }

pub int_field : String → ℤ → Field
int_field key val = record (blank key int_type) { integer = val }

pub int64_field : String → ℤ → Field
int64_field key val = record (blank key int_type) { integer = val }

-- Float64, with the type of an integer
pub float64_field : String → ℕ → Field
float64_field key val = record (blank key int_type) { float64 = val }

pub float64p_field : String → Option ℕ → Field
float64p_field key val = record (blank key float64p_type) { interface = float_pointer val }

unfoldable pub string_field : String → String → Field
string_field key val = record (blank key string_type) { string = val }

pub strings_field : String → List String → Field
strings_field key val = record (blank key strings_type) { interface = strings val }

pub stringp_field : String → Option String → Field
stringp_field key val = record (blank key stringp_type) { interface = string_pointer val }

-- Error, of an error by its text; `none` is the nil error
unfoldable pub error_field : Option String → Field
error_field err = record (blank "error" error_type) {
  interface = elim err [ none ↦ nil | some e ↦ an_error e ];
}

pub time_field : String → ℕ → Field
time_field key val = record (blank key time_type) { interface = time val }

unfoldable pub duration_field : String → ℤ → Field
duration_field key val = record (blank key duration_type) { interface = duration val }

pub any_field : String → Dynamic → Field
any_field key val = record (blank key any_type) { interface = val }

unfoldable pub main_message : Field
main_message = blank "" message_type

-- What the zap logger is handed: level, message, and the fields, which convert has turned into zap's.
pub record Entry : Type 0 where
  pub level : ℤ
  pub message : String
  pub fields : List Field

-- `context` are the fields of externalLogger
pub record Logger : Type 0 where
  pub oneline : Bool
  pub level : ℤ
  pub message : String
  pub fields : List Field
  pub context : List Field

abbrev is_handled : ℤ → Bool
is_handled l =
    int_beq l (negsuc 0)
    || int_beq l (pos 0)
    || int_beq l (pos 1)
    || int_beq l (pos 2)
    || int_beq l (pos 4)
    || int_beq l (pos 5)

-- directLog, whose switch lacks DPanicLevel
unfoldable pub direct_log : ℤ → String → List Field → List Entry
direct_log level msg fields =
    if is_handled level then record { level = level; message = msg; fields = fields } ∷ [] else []

abbrev pub is_message : FieldType → Bool
is_message message_type = true
is_message _ = false

-- the loop of log over the fields: the message and the fields of the logger
unfoldable pub gather : String → String → List Field → List Field → String × List Field
gather msg message held [] = (message, held)
gather msg message held (f ∷ fs) =
    gather msg (if is_message f.typ then msg else message)
      (if is_message f.typ then held else held ++ f ∷ []) fs

-- log: the logger, and what is handed to zap
unfoldable pub log : Logger → ℤ → String → List Field → Logger × List Entry
unfolding direct_log
log l level msg fields =
    if not l.oneline
    then (l, direct_log level msg fields)
    else if ltb_ℤ level l.level
    then (l, [])
    else (let (message, held) = gather msg l.message l.fields fields in
        (
          record l {
            message = if ltb_ℤ l.level level || message == "" then msg else message;
            fields = held;
            level = level;
          },
          [],
        ))

-- len(l.fields) > 0 || l.message != ""
abbrev pub has_content : Logger → Bool
has_content l = elim l.fields [ [] ↦ not (l.message == "") | _ ∷ _ ↦ true ]

-- zap's Panic and Fatal do not return: the one panics, the other ends the program.
abbrev pub is_final : ℤ → Bool
is_final level = int_beq level (pos 4) || int_beq level (pos 5)

-- Flush, with the logger as it is when the call is over, also by a panic
unfoldable pub flush : Logger → Logger × List Entry
unfolding direct_log
flush l =
    let emptied = record l { message = ""; level = zero_level; fields = [] } in
    let entries = if has_content l then direct_log l.level l.message l.fields else [] in
    if not l.oneline
    then (l, [])
    else if has_content l && is_final l.level
    then (l, entries)
    else (emptied, entries)

-- New, apart from zap's configuration
unfoldable pub new : Bool → Logger
new oneline = record {
  oneline = oneline;
  level = zero_level;
  message = "";
  fields = [];
  context = [];
}

-- Add
pub add : Logger → List Field → Logger
add l fields = record l { context = l.context ++ fields }

-- With, whose clone holds no gathered message and fields
unfoldable pub with_fields : Logger → List Field → Logger
with_fields l fields = record l { message = ""; fields = []; context = l.context ++ fields }

-- Verbose
pub verbose : Logger → Logger
verbose l = record l { oneline = false; level = zero_level; message = ""; fields = [] }
