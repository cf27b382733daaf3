-- ===== src/Logger/Convert.antt =====
-- log/logger.go, convert: the fields as zap takes them.
use goblocks.Prelude.Int.{ℤ, pos, ltb_ℤ}
use goblocks.Prelude.{ℕ, String, Bool, Option, none, some, List, [], ◌∷◌}
use goblocks.Logger.{
  FieldType, bool_type, int_type, intp_type, float64_type, float64p_type, string_type, strings_type,
  stringp_type, error_type, time_type, duration_type, any_type, message_type, Dynamic,
  float_pointer, strings, string_pointer, time, duration, an_error, Field,
}

-- zap.Field
pub data ZapField : Type 0 where
  zap_bool : String → Bool → ZapField
  zap_int64 : String → ℤ → ZapField
  zap_float64 : String → ℕ → ZapField
  zap_float64p : String → Option ℕ → ZapField
  zap_string : String → String → ZapField
  zap_strings : String → List String → ZapField
  zap_stringp : String → Option String → ZapField
  zap_time : String → ℕ → ZapField
  zap_duration : String → ℤ → ZapField
  zap_any : String → Dynamic → ZapField

-- the type assertions of convert; `none` is the panic of one that fails
abbrev as_float_pointer : String → Dynamic → Option ZapField
as_float_pointer k (float_pointer p) = some (zap_float64p k p)
as_float_pointer k _ = none

abbrev as_strings : String → Dynamic → Option ZapField
as_strings k (strings ss) = some (zap_strings k ss)
as_strings k _ = none

abbrev as_string_pointer : String → Dynamic → Option ZapField
as_string_pointer k (string_pointer p) = some (zap_stringp k p)
as_string_pointer k _ = none

abbrev as_time : String → Dynamic → Option ZapField
as_time k (time t) = some (zap_time k t)
as_time k _ = none

abbrev as_duration : String → Dynamic → Option ZapField
as_duration k (duration d) = some (zap_duration k d)
as_duration k _ = none

abbrev as_error : String → Dynamic → Option ZapField
as_error k (an_error e) = some (zap_string k e)
as_error k _ = none

pub data Converted : Type 0 where
  field : ZapField → Converted
  skipped fails : Converted

abbrev asserted : Option ZapField → Converted
asserted none = fails
asserted (some z) = field z

-- one round of convert
unfoldable pub convert_one : FieldType → Field → Converted
convert_one bool_type f = field (zap_bool f.key (ltb_ℤ (pos 0) f.integer))
convert_one int_type f = field (zap_int64 f.key f.integer)
convert_one float64_type f = field (zap_float64 f.key f.float64)
convert_one float64p_type f = asserted (as_float_pointer f.key f.interface)
convert_one string_type f = field (zap_string f.key f.string)
convert_one strings_type f = asserted (as_strings f.key f.interface)
convert_one stringp_type f = asserted (as_string_pointer f.key f.interface)
convert_one time_type f = asserted (as_time f.key f.interface)
convert_one duration_type f = asserted (as_duration f.key f.interface)
convert_one error_type f = asserted (as_error f.key f.interface)
convert_one any_type f = field (zap_any f.key f.interface)
convert_one intp_type f = skipped
convert_one message_type f = skipped

abbrev push : Converted → Option (List ZapField) → Option (List ZapField)
push fails zs = none
push skipped zs = zs
push (field z) none = none
push (field z) (some zs) = some (z ∷ zs)

-- convert; `none` is a panic
unfoldable pub convert : List Field → Option (List ZapField)
unfolding convert_one
convert [] = some []
convert (f ∷ fs) = push (convert_one f.typ f) (convert fs)
