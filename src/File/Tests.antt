-- ===== src/File/Tests.antt =====
-- The helpers on files, tried out.
use goblocks.Prelude.Eq.{nat_eq, int_eq, string_eq}
use goblocks.Prelude.Map.{get, put}
use goblocks.Prelude.{◌≡◌, refl, inr, true, false, none, [], ◌∷◌}
use goblocks.File.{
  regular, directory, FileSystem, exists, copy, touch_with_path, generate_random_filename,
}
use goblocks.File.Example.{os}
use goblocks.File.Copies.{Copied, copy-Copied, Touched, touch_with_path-Touched}
use goblocks.File.Fresh.{is_new, generate_random_filename-is_new}

abbrev files : FileSystem
files = ("a", regular (1 ∷ 2 ∷ [])) ∷ ("/", directory) ∷ []

copy-Copied_example : Copied os files "a" "c" (copy os files "a" "c")
copy-Copied_example = copy-Copied os files "a" "c" (λ fs path name t q. q)

-- A file copied onto itself is lost.
copy_onto_itself :
    copy os files "a" "a" ≡ (("a", regular []) ∷ ("/", directory) ∷ [], inr (0, none))
unfolding copy get put
copy_onto_itself = refl

touched : Touched os files "c" (touch_with_path os files "c" "a")
touched = touch_with_path-Touched os files "c" "a" refl (λ fs path name t q. q)

free_b : exists os files "b" ≡ false
unfolding exists get
free_b = refl

generate_random_filename-is_new_tried :
    is_new os files "r" (generate_random_filename os 2 files "u" "r" "p" 0) ≡ true
generate_random_filename-is_new_tried =
    generate_random_filename-is_new os 2 files "u" "r" "p" 0 1 refl free_b
