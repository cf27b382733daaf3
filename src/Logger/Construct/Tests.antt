-- ===== src/Logger/Construct/Tests.antt =====
-- The construction of a logger at concrete levels.
use goblocks.Prelude.Eq.{nat_eq, int_eq, string_eq}
use goblocks.Prelude.Int.{pos}
use goblocks.Prelude.Map.{get}
use goblocks.Prelude.{◌≡◌, refl, inr, true, none}
use goblocks.Logger.Construct.{zap_level, new_logger}
use goblocks.Logger.{new}

-- a level that is misspelt is info
misspelt : zap_level "warning" ≡ pos 0
unfolding zap_level get
misspelt = refl

built : new_logger (λ cfg. none) "debug" true ≡ inr (new true)
unfolding new_logger
built = refl
