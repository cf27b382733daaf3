-- ===== src/File/Fresh.antt =====
-- The names that GenerateRandomFilename gives.
use goblocks.Prelude.{
  ℕ, zero, suc, ◌+◌, String, ◌≡◌, ap, ◌∙◌, Bool, true, false, not, Option, none, some, arith, ltb,
}
use goblocks.File.{FileSystem, Os, exists, generate_random_filename}

suc_add : (n k : ℕ) → suc n + k ≡ n + suc k
suc_add n k = omega arith

module _ (os : Os) where
  -- the path of the n-th name
  abbrev pub tried : String → String → String → ℕ → String
  tried url root path n = os.join root (os.join path (os.random_name url n))

  -- whether the file of the external name is new
  abbrev pub is_new : FileSystem → String → Option (String × String) → Bool
  is_new fs root none = false
  is_new fs root (some (ext_path, fname)) = not (exists os fs (os.join root ext_path))

  -- If one of the first `rounds` names is free, that many rounds are enough, and the name that is
  -- given is the external name of a file that does not exist.
  pub generate_random_filename-is_new :
      (rounds : ℕ) (fs : FileSystem) (url root path : String) (n k : ℕ)
      → ltb k rounds ≡ true
      → exists os fs (tried url root path (n + k)) ≡ false
      → is_new fs root (generate_random_filename os rounds fs url root path n) ≡ true
  unfolding generate_random_filename
  generate_random_filename-is_new zero fs url root path n k h free = ground (arith, h)
  generate_random_filename-is_new (suc r) fs url root path n zero h free = ground (arith, free)
  generate_random_filename-is_new (suc r) fs url root path n (suc k) h free =
      let next : exists os fs (tried url root path (suc n + k)) ≡ false =
        ap (λ m. exists os fs (tried url root path m)) (suc_add n k) ∙ free in
      ground (
        arith,
        generate_random_filename-is_new r fs url root path (suc n) k (ground (arith, h)) next,
      )
