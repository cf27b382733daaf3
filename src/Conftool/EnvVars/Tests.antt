-- ===== src/Conftool/EnvVars/Tests.antt =====
-- The theorems on ParseEnvVars at concrete inputs.
use goblocks.Prelude.Text.{Text, codes}
use goblocks.Prelude.{◌≡◌, refl, none, some, arith}
use goblocks.Conftool.EnvVars.{
  match_at, word_prefix, is_prefix, replace_from, is_word, find_submatch, braces, parse_env_vars,
}
use goblocks.Conftool.EnvVars.Ends.{parse_env_vars_ends}
use goblocks.Conftool.EnvVars.Endless.{parse_env_vars_loops}

-- every variable is "x}}"
abbrev getenv : Text → Text
getenv w = codes "x}}"

abbrev config : Text
config = codes "a: {{A}} {{{{B}}"

parse_env_vars_ends_example :
    (out : Text) × (parse_env_vars 7 getenv config ≡ some out) × (find_submatch out ≡ none)
parse_env_vars_ends_example = parse_env_vars_ends getenv 7 config (λ w. refl) (omega arith)

substituted : parse_env_vars 7 getenv config ≡ some (codes "a: x}} x}}")
unfolding parse_env_vars find_submatch match_at word_prefix is_word is_prefix replace_from
substituted = refl

parse_env_vars_loops_example : parse_env_vars 1000 (λ w. braces w) (braces (codes "PATH")) ≡ none
unfolding is_word
parse_env_vars_loops_example =
    parse_env_vars_loops (λ w. braces w) b'P' (codes "ATH") 1000 (refl, (refl, (refl, (refl, tt))))
      refl
