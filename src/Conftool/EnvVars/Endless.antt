-- ===== src/Conftool/EnvVars/Endless.antt =====
-- An input on which the loop of ParseEnvVars does not end.
use goblocks.Prelude.Text.{Text}
use goblocks.Prelude.{
  ℕ, zero, suc, ◌≡◌, refl, true, none, some, [], ◌∷◌, ◌++◌, append-nil, arith, length, All,
}
use goblocks.Conftool.EnvVars.{
  is_word, word_prefix, match_at, find_submatch, braces, is_prefix, replace_from, replace_all,
  parse_env_vars,
}

abbrev closing : Text
closing = b'}' ∷ b'}' ∷ []

word_prefix-append :
    (w : Text) → All (λ c. is_word c ≡ true) w → word_prefix (w ++ closing) ≡ (w, closing)
unfolding word_prefix is_word
word_prefix-append [] h = refl
word_prefix-append (c ∷ w) h = rw (word_prefix, h.0, word_prefix-append w h.1) refl

find_submatch-braces :
    (c : ℕ) (w : Text)
    → All (λ d. is_word d ≡ true) (c ∷ w)
    → find_submatch (braces (c ∷ w)) ≡ some (c ∷ w)
unfolding find_submatch match_at
find_submatch-braces c w h = rw (find_submatch, match_at, word_prefix-append (c ∷ w) h) refl

is_prefix_refl : (s : Text) → is_prefix s s ≡ true
unfolding is_prefix
is_prefix_refl [] = refl
is_prefix_refl (c ∷ s) = ground (arith, is_prefix_refl s)

replace_from-length : (old new s : Text) → replace_from (length s) old new s ≡ []
unfolding replace_from
replace_from-length old new [] = refl
replace_from-length old new (c ∷ s) = replace_from-length old new s

replace_all_self : (c : ℕ) (s new : Text) → replace_all (c ∷ s) (c ∷ s) new ≡ new
unfolding replace_from
replace_all_self c s new =
    ground (arith, is_prefix_refl s, replace_from-length (c ∷ s) new s, append-nil new)

-- A variable whose value is its own placeholder makes ParseEnvVars run for ever on a text that is
-- this placeholder: no number of rounds is enough.
pub parse_env_vars_loops :
    (getenv : Text → Text) (c : ℕ) (w : Text) (fuel : ℕ)
    → All (λ d. is_word d ≡ true) (c ∷ w)
    → getenv (c ∷ w) ≡ braces (c ∷ w)
    → parse_env_vars fuel getenv (braces (c ∷ w)) ≡ none
unfolding parse_env_vars
parse_env_vars_loops getenv c w zero words self = refl
parse_env_vars_loops getenv c w (suc fuel) words self =
    rw (parse_env_vars, find_submatch-braces c w words, self)
      (rw (replace_all_self b'{' (b'{' ∷ (c ∷ w ++ closing)) (braces (c ∷ w)))
        (parse_env_vars_loops getenv c w fuel words self))
