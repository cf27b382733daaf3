-- ===== src/File/Normal.antt =====
-- file/file.go, NormalizePath, and str/str.go, RandomString. The home directory and path/filepath are
-- parameters; an error of theirs is a number.
use mathlib.Core.Path.{subst}
use goblocks.Prelude.Text.{Text, codes}
use goblocks.Prelude.{
  ℕ, ◌≡◌, refl, ap, ◌⊎◌, inl, inr, Bool, true, false, Option, none, some, List, [], ◌∷◌, arith,
  nat_beq, if◌then◌else◌, Option-cases, length, get_elem?,
}

pub data PathError : Type 0 where
  no_home no_absolute_path : ℕ → PathError

-- os.UserHomeDir, and Join, Abs and Clean of path/filepath
pub record Paths : Type 0 where
  pub user_home_dir : ℕ ⊎ Text
  pub join : Text → Text → Text
  pub absolute : Text → ℕ ⊎ Text
  pub clean : Text → Text

-- the path with the home directory for ~, where 126 is the tilde and 47 the slash
pub expand : Paths → Text → PathError ⊎ Text
expand os [] = inr []
expand os (c ∷ []) =
    if nat_beq c 126
    then elim os.user_home_dir [ inl e ↦ inl (no_home e) | inr home ↦ inr home ]
    else inr (c ∷ [])
expand os (c ∷ d ∷ cs) =
    if nat_beq c 126
    then elim os.user_home_dir [
      | inl e ↦ inl (no_home e)
      | inr home ↦ if nat_beq d 47 then inr (os.join home cs) else inr (c ∷ d ∷ cs)
    ]
    else inr (c ∷ d ∷ cs)

-- NormalizePath, once ~ is replaced
abbrev pub made_absolute : Paths → PathError ⊎ Text → PathError ⊎ Text
made_absolute os (inl e) = inl e
made_absolute os (inr path) = elim (os.absolute path) [
  | inl e ↦ inl (no_absolute_path e)
  | inr abs ↦ inr (os.clean abs)
]

pub normalize_path : Paths → Text → PathError ⊎ Text
unfolding expand
normalize_path os path = made_absolute os (expand os path)

-- the alphabet of RandomString, and the string for the numbers that rand.IntN gives below its length
abbrev pub alphabet : Text
alphabet = codes "ABCDEFGHIJKLMNOPQRSTUVWXYZabcdefghijklmnopqrstuvwxyz0123456789"

pub random_string : List ℕ → Option Text
random_string [] = some []
random_string (r ∷ rs) =
    let rest = random_string rs in
    elim (get_elem? alphabet r) [
      | none ↦ none
      | some c ↦ elim rest [ none ↦ none | some s ↦ some (c ∷ s) ]
    ]

abbrev pub is_rooted : Text → Bool
is_rooted [] = false
is_rooted (c ∷ cs) = nat_beq c 47

-- What path/filepath promises of an absolute path that it has made and cleaned: it starts with a
-- slash, and both functions keep it.
abbrev pub KeepsClean : Paths → Type 0
KeepsClean os =
    (path abs : Text)
    → os.absolute path ≡ inr abs
    → (is_rooted (os.clean abs) ≡ true)
      × (os.absolute (os.clean abs) ≡ inr (os.clean abs))
      × (os.clean (os.clean abs) ≡ os.clean abs)

expand_rooted : (os : Paths) (path : Text) → is_rooted path ≡ true → expand os path ≡ inr path
unfolding expand
expand_rooted os [] h = refl
expand_rooted os (c ∷ []) h = ground (arith, h)
expand_rooted os (c ∷ d ∷ cs) h = ground (arith, h)

given : Text → PathError ⊎ Text
given a = inr a

given_inj : (a b : Text) → given a ≡ given b → a ≡ b
unfolding given
given_inj a b h = cc

-- a path that is clean is given for itself
clean_again :
    (os : Paths) (from path : Text) (r : ℕ ⊎ Text)
    → KeepsClean os
    → os.absolute from ≡ r
    → elim r as (λ x. PathError ⊎ Text) [
      | inl e ↦ inl (no_absolute_path e)
      | inr abs ↦ inr (os.clean abs)
    ]
      ≡ inr path
    → normalize_path os path ≡ inr path
unfolding normalize_path given
clean_again os from path (inl e) k q h = absurd (cc h)
clean_again os from path (inr abs) k q h =
    let kept = k from abs q in
    subst (λ p. normalize_path os p ≡ inr p) (given_inj (os.clean abs) path h)
      (rw (expand_rooted os (os.clean abs) kept.0, made_absolute, kept.1) (ap inr kept.2))

made_absolute-again :
    (os : Paths) (start : PathError ⊎ Text) (path : Text)
    → KeepsClean os
    → made_absolute os start ≡ inr path
    → normalize_path os path ≡ inr path
made_absolute-again os (inl e) path k h = absurd (cc h)
made_absolute-again os (inr from) path k h = clean_again os from path (os.absolute from) k refl h

-- A path that NormalizePath has given is given again for itself.
pub normalize_path_again :
    (os : Paths) (path normal : Text)
    → KeepsClean os
    → normalize_path os path ≡ inr normal
    → normalize_path os normal ≡ inr normal
unfolding normalize_path
normalize_path_again os path normal k h = made_absolute-again os (expand os path) normal k h

-- RandomString gives as many characters as it is asked for.
random_string-length : (rs : List ℕ) (s : Text) → random_string rs ≡ some s → length s ≡ length rs
unfolding random_string
random_string-length [] s h = ground (arith, h)
random_string-length (r ∷ rs) s h = elim (Option-cases (random_string rs)) [
  | inl z ↦ ground (arith, h, z)
  | inr (t, z) ↦ ground (arith, h, z, random_string-length rs t z)
]
