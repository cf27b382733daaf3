-- ===== src/Conftool/EnvVars.antt =====
-- conftool/conftool.go: ParseEnvVars, and the reading of a file with it. Texts are lists of bytes;
-- `getenv` is os.Getenv after strings.ToUpper.
pub mod Ends
pub mod Endless
mod Tests
use goblocks.Prelude.Text.{Text}
use goblocks.Prelude.Eq.{◌==◌, nat_eq, int_eq, string_eq}
use goblocks.Prelude.Map
use goblocks.Prelude.Map.{Map}
use goblocks.Prelude.{
  ℕ, zero, suc, ◌-◌, String, Bool, true, false, not, ◌&&◌, ◌||◌, Option, none, some, [], ◌∷◌, ◌++◌,
  leb, nat_beq, if◌then◌else◌, length,
}

-- \w
pub is_word : ℕ → Bool
is_word c =
    leb b'0' c && leb c b'9'
    || leb b'A' c && leb c b'Z'
    || leb b'a' c && leb c b'z'
    || nat_beq c b'_'

-- the longest prefix of word characters, and what follows it
abbrev pub cons_word : ℕ → Text × Text → Text × Text
cons_word c (w, rest) = (c ∷ w, rest)

unfoldable pub word_prefix : Text → Text × Text
unfolding is_word
word_prefix [] = ([], [])
word_prefix (c ∷ cs) = let r = word_prefix cs in if is_word c then cons_word c r else ([], c ∷ cs)

-- the end of a match, after the word
abbrev pub closed_word : Text × Text → Option Text
closed_word ([], rest) = none
closed_word (c ∷ w, d ∷ e ∷ rest) = if nat_beq d b'}' && nat_beq e b'}' then some (c ∷ w) else none
closed_word (c ∷ w, _) = none

-- a match of {{(\w+)}} at the start of the text, by its word
pub match_at : Text → Option Text
unfolding word_prefix
match_at (a ∷ b ∷ rest) =
    if nat_beq a b'{' && nat_beq b b'{' then closed_word (word_prefix rest) else none
match_at _ = none

-- FindSubmatch: the leftmost match
pub find_submatch : Text → Option Text
unfolding match_at
find_submatch [] = none
find_submatch (c ∷ cs) =
    let rest = find_submatch cs in elim (match_at (c ∷ cs)) [ some w ↦ some w | none ↦ rest ]

-- the text of the match
abbrev pub braces : Text → Text
braces w = b'{' ∷ b'{' ∷ (w ++ b'}' ∷ b'}' ∷ [])

unfoldable pub is_prefix : Text → Text → Bool
is_prefix [] s = true
is_prefix (c ∷ cs) [] = false
is_prefix (c ∷ cs) (d ∷ s) = nat_beq c d && is_prefix cs s

-- bytes.ReplaceAll of a text that is not empty: `skip` bytes belong to the occurrence before
pub replace_from : ℕ → Text → Text → Text → Text
unfolding is_prefix
replace_from skip old new [] = []
replace_from (suc skip) old new (c ∷ cs) = replace_from skip old new cs
replace_from zero old new (c ∷ cs) =
    let found = replace_from (length old - 1) old new cs in
    let other = replace_from zero old new cs in
    if is_prefix old (c ∷ cs) then new ++ found else c ∷ other

abbrev pub replace_all : Text → Text → Text → Text
replace_all buf old new = replace_from zero old new buf

-- ParseEnvVars on fuel; `none` means that the fuel ran out.
pub parse_env_vars : ℕ → (Text → Text) → Text → Option Text
unfolding find_submatch
parse_env_vars zero getenv buf = none
parse_env_vars (suc fuel) getenv buf = elim (find_submatch buf) [
  | none ↦ some buf
  | some w ↦ parse_env_vars fuel getenv (replace_all buf (braces w) (getenv w))
]

pub data ConfigType : Type 0 where
  yaml json : ConfigType

-- getConfigType, by the extension
pub get_config_type : String → Option ConfigType
get_config_type ext =
    if ext == ".yaml" || ext == ".yml"
    then some yaml
    else if ext == ".json"
    then some json
    else none

pub data ReadError : Type 0 where
  no_path no_file unsupported unreadable not_decoded : ReadError
  -- the error of DefaultsAndRequired
  incomplete : ReadError

pub data ReadResult {ℓ} (A : Type ℓ) : Type ℓ where
  ok : A → ReadResult A
  err : ReadError → ReadResult A

-- What ReadFromFile asks of the system and of the decoders. `accept` is DefaultsAndRequired on the
-- decoded configuration.
pub record Reader (A : Type 0) : Type 0 where
  pub absolute : String → Option String
  pub extension : String → String
  -- Open: whether the file is there; ReadAll: its content
  pub opened : String → Bool
  pub content : String → Option Text
  pub decode : ConfigType → Text → Option A
  pub accept : A → Option A

abbrev pub accepted : {A : Type 0} → Option A → ReadResult A
accepted none = err incomplete
accepted (some a) = ok a

abbrev pub decoded : {A : Type 0} → Reader A → Option A → ReadResult A
decoded r none = err not_decoded
decoded r (some a) = accepted (r.accept a)

-- parseRead, whose ParseEnvVars may not end
pub parse_read :
    {A : Type 0} → Reader A → (Text → Text) → ℕ → ConfigType → Option Text → Option (ReadResult A)
unfolding parse_env_vars
parse_read r getenv fuel typ none = some (err unreadable)
parse_read r getenv fuel typ (some conf) = elim (parse_env_vars fuel getenv conf) [
  | none ↦ none
  | some conf' ↦ some (decoded r (r.decode typ conf'))
]

-- ReadFromFile
pub read_from_file : {A : Type 0} → Reader A → (Text → Text) → ℕ → String → Option (ReadResult A)
unfolding parse_read get_config_type
read_from_file r getenv fuel fname = elim (r.absolute fname) [
  | none ↦ some (err no_path)
  | some fullname ↦
      if not (r.opened fullname)
      then some (err no_file)
      else elim (get_config_type (r.extension fname)) [
        | none ↦ some (err unsupported)
        | some typ ↦ parse_read r getenv fuel typ (r.content fullname)
      ]
]
