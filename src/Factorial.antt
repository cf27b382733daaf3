-- ===== src/Factorial.antt =====
-- examples/factorial/factorial.go: a service of one handler, which replies with a factorial or with the
-- number of its bits, in decimal digits as encoding/json writes them.
pub mod Digits
pub mod Loop
pub mod Handler
mod Tests
use goblocks.Prelude.Text.{Text, codes}
use goblocks.Prelude.Eq.{nat_eq, int_eq, string_eq}
use goblocks.Prelude.Int.{ℤ, pos, negsuc}
use goblocks.Prelude.Map
use goblocks.Prelude.Map.{Map}
use goblocks.Prelude.{
  ℕ, zero, suc, ◌+◌, ◌-◌, ◌*◌, ◌/◌, ◌%◌, Bool, true, false, not, ◌&&◌, ◌||◌, none, some, [], ◌∷◌,
  ◌++◌, ltb, leb, if◌then◌else◌,
}
use goblocks.HttpServer.Middleware.{Writer, Request, reply}
use goblocks.HttpServer.Instrumentation.{HandlerWithResult, Ended, finished}

-- serviceConfig, of which the handler reads one field
pub record ServiceConfig : Type 0 where
  pub api_root : Text
  pub count_bits : Bool

-- the path of the one handler of GetHandlers
pub path : ServiceConfig → Text
path cfg = cfg.api_root ++ codes "/factorial/{number:[0-9]+}"

-- the loop of factorial, as long as n > 1
pub multiply : ℕ → ℕ → ℕ → ℕ
multiply zero big_num result = result
multiply (suc zero) big_num result = result
multiply (suc (suc n)) big_num result = multiply (suc n) (big_num - 1) (result * big_num)

pub factorial : ℤ → ℕ
unfolding multiply
factorial (pos n) = multiply n n 1
factorial (negsuc n) = 1

-- strconv.Atoi of a text without a sign, which the path does not admit
abbrev pub is_digit : ℕ → Bool
is_digit c = leb 48 c && leb c 57

pub value_from : ℕ → Text → ℕ
value_from n [] = n
value_from n (c ∷ cs) = value_from (n * 10 + (c - 48)) cs

pub all_digits : Text → Bool
all_digits [] = true
all_digits (c ∷ cs) = is_digit c && all_digits cs

abbrev pub is_empty : Text → Bool
is_empty [] = true
is_empty (c ∷ cs) = false

pub data Atoi : Type 0 where
  number : ℕ → Atoi
  invalid_syntax out_of_range : Atoi

pub atoi : Text → Atoi
unfolding value_from all_digits
atoi s =
    let n = value_from 0 s in
    if is_empty s || not (all_digits s)
    then invalid_syntax
    else if ltb n 9_223_372_036_854_775_808
    then number n
    else out_of_range

-- fmt.Errorf("invalid number: %w", err), where 34 is the quotation mark
abbrev pub invalid_number : Text → Text → Text
invalid_number s why =
    codes "invalid number: strconv.Atoi: parsing " ++ 34 ∷ s ++ 34 ∷ codes ": " ++ why

-- decimal digits; with more fuel than the number there are enough
pub digits : ℕ → ℕ → Text
digits zero n = []
digits (suc fuel) n =
    let more = digits fuel (n / 10) in
    if ltb n 10 then (48 + n) ∷ [] else more ++ (48 + n % 10) ∷ []

pub decimal : ℕ → Text
unfolding digits
decimal n = digits (suc n) n

-- BitLen, by halving
pub halvings : ℕ → ℕ → ℕ
halvings zero n = 0
halvings (suc fuel) n = let more = halvings fuel (n / 2) in if ltb 0 n then suc more else 0

pub bit_len : ℕ → ℕ
unfolding halvings
bit_len n = halvings n n

-- json.Marshal of a map with one number
pub json_number : Text → ℕ → Text
unfolding decimal
json_number key n = 123 ∷ 34 ∷ key ++ 34 ∷ 58 ∷ decimal n ++ 125 ∷ []

-- Object of httpreply, of what json.Marshal makes of the object
pub object : Writer → Text → Writer
object w buf = reply w 200 "application/json" buf

-- factorialHandler, after Atoi
pub factorial_reply : ServiceConfig → Text → Writer → Atoi → Ended
unfolding factorial bit_len json_number object
factorial_reply cfg s w (number n) =
    let result = factorial (pos n) in
    if cfg.count_bits
    then finished (object w (json_number (codes "bits") (bit_len result))) 200 none
    else finished (object w (json_number (codes "factorial") result)) 200 none
factorial_reply cfg s w invalid_syntax =
    finished w 400 (some (invalid_number s (codes "invalid syntax")))
factorial_reply cfg s w out_of_range =
    finished w 400 (some (invalid_number s (codes "value out of range")))

-- factorialHandler; `vars` gives the router's variable "number"
pub factorial_handler : {S D : Type 0} → ServiceConfig → (Request → Text) → HandlerWithResult S D
unfolding atoi factorial_reply
factorial_handler cfg vars s r ctx w = (s, factorial_reply cfg (vars r) w (atoi (vars r)))
