-- ===== src/Logger/Tests.antt =====
-- The theorems on log/logger.go at concrete inputs.
use goblocks.Prelude.Int.{pos}
use goblocks.Prelude.{◌≡◌, refl, true, false, none, List, [], ◌∷◌, map, arith, if◌then◌else◌}
use goblocks.Logger.{dpanic, level_value, Logger, direct_log, log, flush, new, string_field}
use goblocks.Logger.Convert.{convert, convert_one}
use goblocks.Logger.Fields.{
  Made, of_error, of_float64, of_bool, of_main_message, build, convert-build,
}
use goblocks.Logger.Gathering.{Call, log_all, is_dpanic, log_direct, IsPlain, flush-log_all}

abbrev made : List Made
made = of_error none ∷ of_float64 "x" 7 ∷ of_main_message ∷ of_bool "ok" true ∷ []

convert-build_example : convert (map build made) ≡ none
convert-build_example = convert-build made

abbrev direct : Logger
direct = record (new false) { oneline = false }

dpanic_is_lost : log direct (level_value dpanic) "m" [] ≡ (
  direct,
  if is_dpanic dpanic
      then []
      else record { level = level_value dpanic; message = "m"; fields = [] } ∷ [],
)
dpanic_is_lost = log_direct direct dpanic "m" [] refl

abbrev started : Call
started = record { level = pos 0; message = "start"; fields = string_field "k" "v" ∷ [] }

abbrev failing : Call
failing = record { level = pos 2; message = "runtime"; fields = [] }

started-IsPlain : IsPlain started
unfolding string_field convert convert_one
started-IsPlain = record {
  has_message = refl;
  at_level = omega arith;
  no_main = (refl, tt);
  converted = refl;
}

failing-IsPlain : IsPlain failing
unfolding convert
failing-IsPlain = record {
  has_message = refl;
  at_level = omega arith;
  no_main = tt;
  converted = refl;
}

flush-log_all_example :
    let r = log_all (new true) (started ∷ failing ∷ []) in
    (r.1 ≡ []) × (flush r.0 ≡ (new true, direct_log (pos 2) "runtime" (string_field "k" "v" ∷ [])))
flush-log_all_example = flush-log_all started (failing ∷ []) started-IsPlain (failing-IsPlain, tt)
