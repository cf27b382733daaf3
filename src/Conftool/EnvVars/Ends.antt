-- ===== src/Conftool/EnvVars/Ends.antt =====
-- When the loop of ParseEnvVars ends.
use goblocks.Prelude.Text.{Text}
use goblocks.Prelude.{
  ℕ, zero, suc, ◌+◌, ◌-◌, ◌≤◌, ◌<◌, ◌≡◌, refl, sym, ◌∙◌, inl, inr, true, false, none, some, [], ◌∷◌,
  ◌++◌, arith, nat_beq, if◌then◌else◌, Bool-cases, Option-cases, length,
}
use goblocks.Conftool.EnvVars.{
  word_prefix, closed_word, match_at, find_submatch, braces, is_prefix, replace_from, replace_all,
  parse_env_vars,
}

-- How many opening braces a text has.
abbrev pub openings : Text → ℕ
openings [] = 0
openings (c ∷ cs) = if nat_beq c b'{' then suc (openings cs) else openings cs

openings-append : (s t : Text) → openings (s ++ t) ≡ openings s + openings t
openings-append [] t = omega arith
openings-append (c ∷ s) t = ground (arith, openings-append s t)

-- The word and the rest of word_prefix make up the text.
word_prefix_lem : (s : Text) → (word_prefix s).0 ++ (word_prefix s).1 ≡ s
unfolding word_prefix
word_prefix_lem [] = refl
word_prefix_lem (c ∷ cs) = ground (arith, word_prefix_lem cs)

is_prefix-append : (s t u : Text) → is_prefix t u ≡ true → is_prefix (s ++ t) (s ++ u) ≡ true
unfolding is_prefix
is_prefix-append [] t u h = h
is_prefix-append (c ∷ s) t u h = ground (arith, is_prefix-append s t u h)

closed_word_lem :
    (r : Text × Text) (w : Text)
    → closed_word r ≡ some w
    → is_prefix (w ++ b'}' ∷ b'}' ∷ []) (r.0 ++ r.1) ≡ true
unfolding is_prefix
closed_word_lem ([], rest) w h = ground arith
closed_word_lem (c ∷ v, []) w h = ground arith
closed_word_lem (c ∷ v, d ∷ []) w h = ground arith
closed_word_lem (c ∷ v, d ∷ e ∷ rest) w h =
    ground (arith, is_prefix-append (c ∷ v) (b'}' ∷ b'}' ∷ []) (d ∷ e ∷ rest))

match_at_lem : (s w : Text) → match_at s ≡ some w → is_prefix (braces w) s ≡ true
unfolding match_at is_prefix
match_at_lem [] w h = ground arith
match_at_lem (a ∷ []) w h = ground arith
match_at_lem (a ∷ b ∷ rest) w h =
    ground (arith, closed_word_lem (word_prefix rest) w, word_prefix_lem rest)

-- Replacing a text that starts with an opening brace by one that has none.
module _ (old new : Text) (clean : openings new ≡ 0) where
  openings-replace-le :
      (skip : ℕ) (s : Text) → openings (replace_from skip (b'{' ∷ old) new s) ≤ openings s
  unfolding replace_from
  openings-replace-le zero [] = omega arith
  openings-replace-le (suc skip) [] = omega arith
  openings-replace-le (suc skip) (c ∷ cs) = ground (arith, openings-replace-le skip cs)
  openings-replace-le zero (c ∷ cs) =
      let found = replace_from (length (b'{' ∷ old) - 1) (b'{' ∷ old) new cs in
      ground (
        arith,
        clean,
        openings-append new found,
        openings-replace-le (length (b'{' ∷ old) - 1) cs,
        openings-replace-le zero cs,
      )

  -- An occurrence of the text replaced makes the braces fewer.
  openings-replace-lt :
      (s : Text)
      → is_prefix (b'{' ∷ old) s ≡ true
      → openings (replace_from zero (b'{' ∷ old) new s) < openings s
  unfolding replace_from
  openings-replace-lt [] h = ground arith
  openings-replace-lt (c ∷ cs) h =
      let found = replace_from (length (b'{' ∷ old) - 1) (b'{' ∷ old) new cs in
      ground
        (arith, clean, openings-append new found, openings-replace-le (length (b'{' ∷ old) - 1) cs)

  openings-replace-cons :
      (c : ℕ) (cs : Text)
      → is_prefix (b'{' ∷ old) (c ∷ cs) ≡ false
      → openings (replace_from zero (b'{' ∷ old) new cs) < openings cs
      → openings (replace_from zero (b'{' ∷ old) new (c ∷ cs)) < openings (c ∷ cs)
  unfolding replace_from
  openings-replace-cons c cs no_match fewer = rw (replace_from, no_match) (ground arith)

find_submatch_here :
    (c : ℕ) (cs w : Text) → match_at (c ∷ cs) ≡ some w → find_submatch (c ∷ cs) ≡ some w
unfolding find_submatch
find_submatch_here c cs w h = rw (find_submatch, h) refl

find_submatch_further :
    (c : ℕ) (cs : Text) → match_at (c ∷ cs) ≡ none → find_submatch (c ∷ cs) ≡ find_submatch cs
unfolding find_submatch
find_submatch_further c cs h = rw (find_submatch, h) refl

match_at-find_submatch :
    (c : ℕ) (cs w w' : Text)
    → find_submatch (c ∷ cs) ≡ some w
    → match_at (c ∷ cs) ≡ some w'
    → is_prefix (braces w) (c ∷ cs) ≡ true
match_at-find_submatch c cs w w' h at =
    match_at_lem (c ∷ cs) w (at ∙ sym (find_submatch_here c cs w' at) ∙ h)

find_submatch_lem :
    (new s w : Text)
    → openings new ≡ 0
    → find_submatch s ≡ some w
    → openings (replace_all s (braces w) new) < openings s
unfolding find_submatch
find_submatch_lem new [] w clean h = ground arith
find_submatch_lem new (c ∷ cs) w clean h = elim (Bool-cases (is_prefix (braces w) (c ∷ cs))) [
  | inl here ↦ openings-replace-lt (b'{' ∷ (w ++ b'}' ∷ b'}' ∷ [])) new clean (c ∷ cs) here
  | inr further ↦ elim (Option-cases (match_at (c ∷ cs))) [
    | inl none_here ↦
        openings-replace-cons (b'{' ∷ (w ++ b'}' ∷ b'}' ∷ [])) new clean c cs further
          (find_submatch_lem new cs w clean (sym (find_submatch_further c cs none_here) ∙ h))
    | inr (w', at) ↦ cc (match_at-find_submatch c cs w w' h at)
  ]
]

-- If no environment variable's value has an opening brace, ParseEnvVars ends, with one round more
-- than the text has opening braces, and its result has no placeholder left.
pub parse_env_vars_ends :
    (getenv : Text → Text) (fuel : ℕ) (buf : Text)
    → ((w : Text) → openings (getenv w) ≡ 0)
    → openings buf < fuel
    → (out : Text) × (parse_env_vars fuel getenv buf ≡ some out) × (find_submatch out ≡ none)
unfolding parse_env_vars
parse_env_vars_ends getenv zero buf clean more = absurd (omega arith)
parse_env_vars_ends getenv (suc fuel) buf clean more = elim (Option-cases (find_submatch buf)) [
  | inl h ↦ (buf, rw (parse_env_vars, h) refl, h)
  | inr (w, h) ↦
      let fewer = find_submatch_lem (getenv w) buf w (clean w) h in
      let (out, runs, gone) =
        parse_env_vars_ends getenv fuel (replace_all buf (braces w) (getenv w)) clean
          (omega (arith, fewer, more)) in
      (out, rw (parse_env_vars, h) runs, gone)
]
