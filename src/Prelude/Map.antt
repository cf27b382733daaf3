-- ===== src/Prelude/Map.antt =====
-- Go's map as an association list. A range over the map visits the entries in the list's order,
-- and the theorems that depend on a range hold for every such list. `put` writes in place, so the
-- list holds each key once (`Distinct`).
use Prim.Native.Nat.{suc}
use mathlib.Core.List.{List, [], ◌∷◌}
use mathlib.Core.Option.{Option, none, some}
use mathlib.Core.Path.{◌≡◌, refl}
use native.Mathlib.Omega.{arith}
use goblocks.Prelude.Eq.{Eq, ◌==◌}
use goblocks.Prelude.Lists.{length}
use goblocks.Prelude.Tests.{if◌then◌else◌}

abbrev pub Map {ℓ κ} : Type ℓ → Type κ → Type (ℓ ⊔ κ)
Map K V = List (K × V)

module _ {ℓ κ} {K : Type ℓ} {V : Type κ} ⦃e : Eq K⦄ where
  -- v, found := m[k]
  unfoldable pub get : Map K V → K → Option V
  get [] k = none
  get ((j, v) ∷ m) k = if j == k then some v else get m k

  -- m[k] = v
  unfoldable pub put : Map K V → K → V → Map K V
  put [] k v = (k, v) ∷ []
  put ((j, w) ∷ m) k v = if j == k then (j, v) ∷ m else (j, w) ∷ put m k v

  -- delete(m, k)
  unfoldable pub delete : Map K V → K → Map K V
  delete [] k = []
  delete ((j, w) ∷ m) k = let rest = delete m k in if j == k then rest else (j, w) ∷ rest

  pub get-put :
      (m : Map K V) (k j : K) (v : V) → get (put m k v) j ≡ (if k == j then some v else get m j)
  unfolding get put
  get-put [] k j v = refl
  get-put ((i, w) ∷ m) k j v =
      ground (arith, e.beq_iff k j, e.beq_iff i k, e.beq_iff i j, get-put m k j v)

  pub get-delete : (m : Map K V) (k j : K) → get (delete m k) j ≡ (if k == j then none else get m j)
  unfolding get delete
  get-delete [] k j = ground arith
  get-delete ((i, w) ∷ m) k j =
      ground (arith, e.beq_iff k j, e.beq_iff i k, e.beq_iff i j, get-delete m k j)

  -- No two entries have one key.
  abbrev pub Distinct : Map K V → Type κ
  Distinct [] = Unit
  Distinct ((k, v) ∷ m) = (get m k ≡ none) × Distinct m

  pub put-Distinct : (m : Map K V) (k : K) (v : V) → Distinct m → Distinct (put m k v)
  unfolding put get
  put-Distinct [] k v d = (refl, tt)
  put-Distinct ((i, w) ∷ m) k v d =
      ground (arith, e.beq_iff i k, e.beq_iff k i, get-put m k i v, put-Distinct m k v d.1)

  pub delete-Distinct : (m : Map K V) (k : K) → Distinct m → Distinct (delete m k)
  unfolding delete
  delete-Distinct [] k d = tt
  delete-Distinct ((i, w) ∷ m) k d = ground (arith, get-delete m k i, delete-Distinct m k d.1)

  pub delete_absent : (m : Map K V) (k : K) → get m k ≡ none → delete m k ≡ m
  unfolding delete get
  delete_absent [] k h = refl
  delete_absent ((i, w) ∷ m) k h = ground (arith, delete_absent m k)

  pub length-put_new :
      (m : Map K V) (k : K) (v : V) → get m k ≡ none → length (put m k v) ≡ suc (length m)
  unfolding put get
  length-put_new [] k v h = refl
  length-put_new ((i, w) ∷ m) k v h = ground (arith, length-put_new m k v)

  pub length-put_old :
      (m : Map K V) (k : K) (v w : V) → get m k ≡ some w → length (put m k v) ≡ length m
  unfolding put get
  length-put_old [] k v w h = cc
  length-put_old ((i, u) ∷ m) k v w h = ground (arith, length-put_old m k v w)

  pub length-delete :
      (m : Map K V) (k : K) (v : V)
      → Distinct m
      → get m k ≡ some v
      → suc (length (delete m k)) ≡ length m
  unfolding delete get
  length-delete [] k v d h = cc
  length-delete ((i, u) ∷ m) k v d h =
      ground (arith, e.beq_iff i k, length-delete m k v d.1, delete_absent m k)
