-- ===== src/Logger/Fields.antt =====
-- What convert of log/logger.go makes of the fields that the package's functions build.
use goblocks.Prelude.Int.{ℤ, pos}
use goblocks.Prelude.{
  ℕ, String, ◌≡◌, refl, inl, inr, Bool, true, false, ◌||◌, if◌then◌else◌, Bool-cases, Option, none,
  some, List, [], ◌∷◌, map,
}
use goblocks.Logger.{
  Dynamic, Field, bool_field, int_field, int64_field, float64_field, float64p_field, string_field,
  strings_field, stringp_field, error_field, time_field, duration_field, any_field, main_message,
}
use goblocks.Logger.Convert.{
  ZapField, zap_bool, zap_int64, zap_float64p, zap_string, zap_strings, zap_stringp, zap_time,
  zap_duration, zap_any, convert_one, convert,
}

-- A call of one of the functions that build a field.
pub data Made : Type 0 where
  of_bool : String → Bool → Made
  of_int of_int64 : String → ℤ → Made
  of_float64 : String → ℕ → Made
  of_float64p : String → Option ℕ → Made
  of_string : String → String → Made
  of_strings : String → List String → Made
  of_stringp : String → Option String → Made
  of_error : Option String → Made
  of_time : String → ℕ → Made
  of_duration : String → ℤ → Made
  of_any : String → Dynamic → Made
  of_main_message : Made

pub build : Made → Field
build (of_bool k v) = bool_field k v
build (of_int k v) = int_field k v
build (of_int64 k v) = int64_field k v
build (of_float64 k v) = float64_field k v
build (of_float64p k v) = float64p_field k v
build (of_string k v) = string_field k v
build (of_strings k v) = strings_field k v
build (of_stringp k v) = stringp_field k v
build (of_error v) = error_field v
build (of_time k v) = time_field k v
build (of_duration k v) = duration_field k v
build (of_any k v) = any_field k v
build of_main_message = main_message

-- What zap gets: the value given, but for a Float64, whose value is lost, and a MainMessage, which
-- is left out.
pub zapped : List Made → List ZapField
zapped [] = []
zapped (of_bool k v ∷ ms) = zap_bool k v ∷ zapped ms
zapped (of_int k v ∷ ms) = zap_int64 k v ∷ zapped ms
zapped (of_int64 k v ∷ ms) = zap_int64 k v ∷ zapped ms
zapped (of_float64 k v ∷ ms) = zap_int64 k (pos 0) ∷ zapped ms
zapped (of_float64p k v ∷ ms) = zap_float64p k v ∷ zapped ms
zapped (of_string k v ∷ ms) = zap_string k v ∷ zapped ms
zapped (of_strings k v ∷ ms) = zap_strings k v ∷ zapped ms
zapped (of_stringp k v ∷ ms) = zap_stringp k v ∷ zapped ms
zapped (of_error (some v) ∷ ms) = zap_string "error" v ∷ zapped ms
zapped (of_error none ∷ ms) = zapped ms
zapped (of_time k v ∷ ms) = zap_time k v ∷ zapped ms
zapped (of_duration k v ∷ ms) = zap_duration k v ∷ zapped ms
zapped (of_any k v ∷ ms) = zap_any k v ∷ zapped ms
zapped (of_main_message ∷ ms) = zapped ms

-- whether Error is called with a nil error
abbrev pub is_nil_error : Made → Bool
is_nil_error (of_error none) = true
is_nil_error _ = false

abbrev pub with_nil_error : List Made → Bool
with_nil_error [] = false
with_nil_error (m ∷ ms) = is_nil_error m || with_nil_error ms

-- convert panics on fields that the package's functions build just when Error was called with a nil
-- error among them. Otherwise each reaches zap in order, under its key and with the value given, except
-- that a Float64 of any value arrives as the integer 0, and a MainMessage is left out.
pub convert-build :
    (ms : List Made)
    → convert (map build ms) ≡ (if with_nil_error ms then none else some (zapped ms))
unfolding convert convert_one build zapped bool_field int_field int64_field float64_field
    float64p_field string_field strings_field stringp_field error_field time_field duration_field
    any_field main_message
convert-build [] = refl
convert-build (of_bool k true ∷ ms) =
    rw (convert-build ms)
      (elim (Bool-cases (with_nil_error ms)) [ inl q ↦ rw (q) refl | inr q ↦ rw (q) refl ])
convert-build (of_bool k false ∷ ms) =
    rw (convert-build ms)
      (elim (Bool-cases (with_nil_error ms)) [ inl q ↦ rw (q) refl | inr q ↦ rw (q) refl ])
convert-build (of_error none ∷ ms) = refl
convert-build (of_main_message ∷ ms) = convert-build ms
convert-build (_ ∷ ms) =
    rw (convert-build ms)
      (elim (Bool-cases (with_nil_error ms)) [ inl q ↦ rw (q) refl | inr q ↦ rw (q) refl ])
