-- ===== src/Migrator/Sorted.antt =====
-- What sorting the entries of a directory by name gives.
use goblocks.Prelude.Text.{Text, codes}
use goblocks.Prelude.{String, ◌≡◌, refl, inl, inr, true, false, [], ◌∷◌, arith, Bool-cases}
use goblocks.Migrator.{Entries, no_more, file, dir, text_ltb, less, put_file, put_dir, sort_by_name}

-- No entry has a name before `n`.
abbrev pub NoneBefore : String → Entries → Type 0
NoneBefore n no_more = Unit
NoneBefore n (file m t rest) = (text_ltb (codes m) (codes n) ≡ false) × NoneBefore n rest
NoneBefore n (dir m sub rest) = (text_ltb (codes m) (codes n) ≡ false) × NoneBefore n rest

-- The entries stand by name, and so do those of the directories among them.
abbrev pub IsSorted : Entries → Type 0
IsSorted no_more = Unit
IsSorted (file n t rest) = NoneBefore n rest × IsSorted rest
IsSorted (dir n sub rest) = NoneBefore n rest × IsSorted sub × IsSorted rest

-- the second list is the first with a file put in somewhere
pub data WithFile (n : String) (t : Text) : Entries → Entries → Type 0 where
  file_here : (es : Entries) → WithFile n t es (file n t es)
  file_after_file :
      (m : String) (u : Text) (es fs : Entries)
      → WithFile n t es fs
      → WithFile n t (file m u es) (file m u fs)
  file_after_dir :
      (m : String) (sub es fs : Entries)
      → WithFile n t es fs
      → WithFile n t (dir m sub es) (dir m sub fs)

-- the second list is the first with a directory put in somewhere
pub data WithDir (n : String) (d : Entries) : Entries → Entries → Type 0 where
  dir_here : (es : Entries) → WithDir n d es (dir n d es)
  dir_after_file :
      (m : String) (u : Text) (es fs : Entries)
      → WithDir n d es fs
      → WithDir n d (file m u es) (file m u fs)
  dir_after_dir :
      (m : String) (sub es fs : Entries)
      → WithDir n d es fs
      → WithDir n d (dir m sub es) (dir m sub fs)

-- The same entries in another order, in the directories among them too.
pub data Reordered : Entries → Entries → Type 0 where
  no_entries : Reordered no_more no_more
  one_file :
      (n : String) (t : Text) (es fs gs : Entries)
      → Reordered es fs
      → WithFile n t fs gs
      → Reordered (file n t es) gs
  one_dir :
      (n : String) (d d' es fs gs : Entries)
      → Reordered d d'
      → Reordered es fs
      → WithDir n d' fs gs
      → Reordered (dir n d es) gs

text_ltb_asym : (a b : Text) → text_ltb a b ≡ true → text_ltb b a ≡ false
unfolding text_ltb
text_ltb_asym [] [] h = refl
text_ltb_asym [] (y ∷ b) h = refl
text_ltb_asym (x ∷ a) [] h = cc h
text_ltb_asym (x ∷ a) (y ∷ b) h = ground (arith, h, text_ltb_asym a b)

text_ltb-nil : (a : Text) → text_ltb a [] ≡ false
unfolding text_ltb
text_ltb-nil [] = refl
text_ltb-nil (x ∷ a) = refl

-- what is not before `b`, which is not before `c`, is not before `c`
text_ltb_trans : (a b c : Text) → text_ltb a b ≡ false → text_ltb b c ≡ false → text_ltb a c ≡ false
unfolding text_ltb
text_ltb_trans a b [] h k = text_ltb-nil a
text_ltb_trans a [] (z ∷ c) h k = cc k
text_ltb_trans [] (y ∷ b) (z ∷ c) h k = cc h
text_ltb_trans (x ∷ a) (y ∷ b) (z ∷ c) h k = ground (arith, h, k, text_ltb_trans a b c)

NoneBefore-trans :
    (n m : String) (es : Entries)
    → text_ltb (codes m) (codes n) ≡ false
    → NoneBefore m es
    → NoneBefore n es
NoneBefore-trans n m no_more h b = tt
NoneBefore-trans n m (file k t rest) h b =
    (text_ltb_trans (codes k) (codes m) (codes n) b.0 h, NoneBefore-trans n m rest h b.1)
NoneBefore-trans n m (dir k sub rest) h b =
    (text_ltb_trans (codes k) (codes m) (codes n) b.0 h, NoneBefore-trans n m rest h b.1)

put_file-NoneBefore :
    (k n : String) (t : Text) (es : Entries)
    → text_ltb (codes n) (codes k) ≡ false
    → NoneBefore k es
    → NoneBefore k (put_file n t es)
put_file-NoneBefore k n t no_more h b = (h, tt)
put_file-NoneBefore k n t (file m u rest) h b = elim (Bool-cases (less m n)) [
  | inl q ↦ rw (q) (b.0, put_file-NoneBefore k n t rest h b.1)
  | inr q ↦ rw (q) (h, b)
]
put_file-NoneBefore k n t (dir m sub rest) h b = elim (Bool-cases (less m n)) [
  | inl q ↦ rw (q) (b.0, put_file-NoneBefore k n t rest h b.1)
  | inr q ↦ rw (q) (h, b)
]

put_dir-NoneBefore :
    (k n : String) (d es : Entries)
    → text_ltb (codes n) (codes k) ≡ false
    → NoneBefore k es
    → NoneBefore k (put_dir n d es)
put_dir-NoneBefore k n d no_more h b = (h, tt)
put_dir-NoneBefore k n d (file m u rest) h b = elim (Bool-cases (less m n)) [
  | inl q ↦ rw (q) (b.0, put_dir-NoneBefore k n d rest h b.1)
  | inr q ↦ rw (q) (h, b)
]
put_dir-NoneBefore k n d (dir m sub rest) h b = elim (Bool-cases (less m n)) [
  | inl q ↦ rw (q) (b.0, put_dir-NoneBefore k n d rest h b.1)
  | inr q ↦ rw (q) (h, b)
]

put_file-IsSorted :
    (n : String) (t : Text) (es : Entries) → IsSorted es → IsSorted (put_file n t es)
put_file-IsSorted n t no_more s = (tt, tt)
put_file-IsSorted n t (file m u rest) s = elim (Bool-cases (less m n)) [
  | inl q ↦ rw (q) (
    put_file-NoneBefore m n t rest (text_ltb_asym (codes m) (codes n) q) s.0,
    put_file-IsSorted n t rest s.1,
  )
  | inr q ↦ rw (q) ((q, NoneBefore-trans n m rest q s.0), s)
]
put_file-IsSorted n t (dir m sub rest) s = elim (Bool-cases (less m n)) [
  | inl q ↦ rw (q) (
    put_file-NoneBefore m n t rest (text_ltb_asym (codes m) (codes n) q) s.0,
    s.1,
    put_file-IsSorted n t rest s.2,
  )
  | inr q ↦ rw (q) ((q, NoneBefore-trans n m rest q s.0), s)
]

put_dir-IsSorted :
    (n : String) (d es : Entries) → IsSorted d → IsSorted es → IsSorted (put_dir n d es)
put_dir-IsSorted n d no_more i s = (tt, i, tt)
put_dir-IsSorted n d (file m u rest) i s = elim (Bool-cases (less m n)) [
  | inl q ↦ rw (q) (
    put_dir-NoneBefore m n d rest (text_ltb_asym (codes m) (codes n) q) s.0,
    put_dir-IsSorted n d rest i s.1,
  )
  | inr q ↦ rw (q) ((q, NoneBefore-trans n m rest q s.0), i, s)
]
put_dir-IsSorted n d (dir m sub rest) i s = elim (Bool-cases (less m n)) [
  | inl q ↦ rw (q) (
    put_dir-NoneBefore m n d rest (text_ltb_asym (codes m) (codes n) q) s.0,
    s.1,
    put_dir-IsSorted n d rest i s.2,
  )
  | inr q ↦ rw (q) ((q, NoneBefore-trans n m rest q s.0), i, s)
]

pub sort_by_name-IsSorted : (es : Entries) → IsSorted (sort_by_name es)
unfolding sort_by_name
sort_by_name-IsSorted no_more = tt
sort_by_name-IsSorted (file n t rest) =
    put_file-IsSorted n t (sort_by_name rest) (sort_by_name-IsSorted rest)
sort_by_name-IsSorted (dir n sub rest) =
    put_dir-IsSorted n (sort_by_name sub) (sort_by_name rest) (sort_by_name-IsSorted sub)
      (sort_by_name-IsSorted rest)

put_file-WithFile : (n : String) (t : Text) (es : Entries) → WithFile n t es (put_file n t es)
put_file-WithFile n t no_more = file_here no_more
put_file-WithFile n t (file m u rest) = elim (Bool-cases (less m n)) [
  | inl q ↦ rw (q) (file_after_file m u rest (put_file n t rest) (put_file-WithFile n t rest))
  | inr q ↦ rw (q) (file_here (file m u rest))
]
put_file-WithFile n t (dir m sub rest) = elim (Bool-cases (less m n)) [
  | inl q ↦ rw (q) (file_after_dir m sub rest (put_file n t rest) (put_file-WithFile n t rest))
  | inr q ↦ rw (q) (file_here (dir m sub rest))
]

put_dir-WithDir : (n : String) (d es : Entries) → WithDir n d es (put_dir n d es)
put_dir-WithDir n d no_more = dir_here no_more
put_dir-WithDir n d (file m u rest) = elim (Bool-cases (less m n)) [
  | inl q ↦ rw (q) (dir_after_file m u rest (put_dir n d rest) (put_dir-WithDir n d rest))
  | inr q ↦ rw (q) (dir_here (file m u rest))
]
put_dir-WithDir n d (dir m sub rest) = elim (Bool-cases (less m n)) [
  | inl q ↦ rw (q) (dir_after_dir m sub rest (put_dir n d rest) (put_dir-WithDir n d rest))
  | inr q ↦ rw (q) (dir_here (dir m sub rest))
]

pub sort_by_name-Reordered : (es : Entries) → Reordered es (sort_by_name es)
unfolding sort_by_name
sort_by_name-Reordered no_more = no_entries
sort_by_name-Reordered (file n t rest) =
    one_file n t rest (sort_by_name rest) (put_file n t (sort_by_name rest))
      (sort_by_name-Reordered rest) (put_file-WithFile n t (sort_by_name rest))
sort_by_name-Reordered (dir n sub rest) =
    one_dir n sub (sort_by_name sub) rest (sort_by_name rest)
      (put_dir n (sort_by_name sub) (sort_by_name rest)) (sort_by_name-Reordered sub)
      (sort_by_name-Reordered rest) (put_dir-WithDir n (sort_by_name sub) (sort_by_name rest))
