-- ===== src/ContainerManager/Find.antt =====
-- containermanager/containers.go: FindContainers and ImageExist, over the lists that Docker returns.
-- Names are lists of bytes; `matches` is the compiled regular expression.
use goblocks.Prelude.Eq.{◌==◌, nat_eq, int_eq, string_eq}
use goblocks.Prelude.{
  ℕ, String, Bool, true, false, Option, none, some, List, [], ◌∷◌, nat_beq, if◌then◌else◌,
}

pub record Listed : Type 0 where
  pub id : String
  pub names : List (List ℕ)

-- strings.Replace(nm, "/", "", 1)
pub drop_slash : List ℕ → List ℕ
drop_slash [] = []
drop_slash (c ∷ cs) = if nat_beq c b'/' then cs else c ∷ drop_slash cs

-- the loop over the names, which breaks at the first match
pub any_matches : (List ℕ → Bool) → List (List ℕ) → Bool
any_matches matches [] = false
any_matches matches (nm ∷ names) =
    if matches (drop_slash nm) then true else any_matches matches names

-- FindContainers; `none` is the client's error
pub collect : (List ℕ → Bool) → List Listed → List String
collect matches [] = []
collect matches (c ∷ cs) =
    let rest = collect matches cs in if any_matches matches c.names then c.id ∷ rest else rest

pub find_containers : (List ℕ → Bool) → Option (List Listed) → Option (List String)
find_containers matches none = none
find_containers matches (some cs) = some (collect matches cs)

pub data ImageResult : Type 0 where
  found not_found list_failed : ImageResult

-- slices.Contains
pub has_tag : List String → String → Bool
has_tag [] image = false
has_tag (t ∷ tags) image = if t == image then true else has_tag tags image

-- the loop of ImageExist over the tags of the images
pub search_images : List (List String) → String → ImageResult
search_images [] image = not_found
search_images (tags ∷ ims) image = if has_tag tags image then found else search_images ims image

-- ImageExist
pub image_exist : Option (List (List String)) → String → ImageResult
image_exist none image = list_failed
image_exist (some ims) image = search_images ims image
