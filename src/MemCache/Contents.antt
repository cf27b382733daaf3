-- ===== src/MemCache/Contents.antt =====
-- What Get of cache/memcache/memcache.go returns after Set, Del and Cleanup, and what a full cache
-- does after Cleanup.
use goblocks.Prelude.Eq.{◌==◌, nat_eq, int_eq, string_eq}
use goblocks.Prelude.Int.{ℤ, pos, ◌+ℤ◌, ◌-ℤ◌, ◌≤ℤ◌}
use goblocks.Prelude.Map
use goblocks.Prelude.Map.{Map, Distinct, get, put, get-put}
use goblocks.Prelude.{
  ℕ, suc, String, ◌≡◌, refl, ap, ◌∙◌, Bool, true, false, Option, none, some, List, arith,
  if◌then◌else◌, length,
}
use goblocks.MemCache.{
  CacheRec, Cache, first_type, get_value, evict, make_room, pick_prey, set_rec, set, del, cleanup,
}
use goblocks.MemCache.Accounting.{IsValid, make_room_fits, used, set_stored}

module _ {ℓ} {V : Type ℓ} where
  -- What Get returns for `key`.
  abbrev pub looked_up : Cache V → String → Option (V × String)
  looked_up c key = (get_value c key).1

  found : Option (CacheRec V) → Option (V × String)
  found none = none
  found (some v) = some (v.value, v.content_type)

  get_value-found : (c : Cache V) (key : String) → looked_up c key ≡ found (get c.storage key)
  unfolding get_value found
  get_value-found c key = ground arith

  found-if :
      (b : Bool) (x y : Option (CacheRec V))
      → found (if b then x else y) ≡ (if b then found x else found y)
  found-if true x y = refl
  found-if false x y = refl

  found-put :
      (m : Map String (CacheRec V)) (key j : String) (rec : CacheRec V)
      → found (get (put m key rec) j)
        ≡ (if key == j then some (rec.value, rec.content_type) else found (get m j))
  unfolding found
  found-put m key j rec = ap found (get-put m key j rec) ∙ found-if (key == j) (some rec) (get m j)

  -- Set of a key that a valid cache holds always stores: Get returns the new value with the first
  -- content type given, the entry keeps the time when it was added and counts one use more, the
  -- entries of other keys stay as they were, with their times and use counts, and so do the size and
  -- the maximal size.
  pub get-set_stored :
      (c : Cache V) (key j : String) (prec : CacheRec V) (value : V) (ct : List String)
      (clock : ℕ → ℤ)
      → IsValid c
      → get c.storage key ≡ some prec
      → (d : Cache V) × (set c key value ct clock ≡ some d)
        × (looked_up d j ≡ (if key == j then some (value, first_type ct) else looked_up c j))
        × (get d.storage j ≡ (
            if key == j
            then some (record {
              value = value;
              content_type = first_type ct;
              added_at = prec.added_at;
              use_count = prec.use_count +ℤ pos 1;
            })
            else get c.storage j))
        × (d.size ≡ c.size)
        × (d.max_size ≡ c.max_size)
  get-set_stored c key j prec value ct clock v g =
      let rec : CacheRec V = record {
        value = value;
        content_type = first_type ct;
        added_at = prec.added_at;
        use_count = prec.use_count +ℤ pos 1;
      } in
      (
        record c { storage = put c.storage key rec },
        set_stored c key prec value ct clock v g,
        get_value-found _ j ∙ found-put c.storage key j rec ∙ (rw (get_value-found c j)),
        get-put c.storage key j rec,
        refl,
        refl,
      )

  -- Set of a new key on a valid cache with room for one more record stores it and evicts nothing.
  pub get-set_new :
      (c : Cache V) (key j : String) (value : V) (ct : List String) (clock : ℕ → ℤ)
      → get c.storage key ≡ none
      → c.size +ℤ pos 48 ≤ℤ c.max_size
      → (d : Cache V) × (set c key value ct clock ≡ some d)
        × (looked_up d j ≡ (if key == j then some (value, first_type ct) else looked_up c j))
        × (d.size ≡ c.size +ℤ pos 48)
  unfolding set
  get-set_new c key j value ct clock g h =
      let rec : CacheRec V = record {
        value = value;
        content_type = first_type ct;
        added_at = clock 0;
        use_count = pos 0 +ℤ pos 1;
      } in
      let e = make_room_fits (length c.storage) (λ n. clock (suc n)) (pos 48) c h in
      (
        record c { size = c.size +ℤ pos 48; storage = put c.storage key rec },
        rw (g, set) (rw (e, set_rec)),
        get_value-found _ j ∙ found-put c.storage key j rec ∙ (rw (get_value-found c j)),
        refl,
      )

  -- After Cleanup of a cache that had no room for one more record, the cache is empty, and yet no
  -- Set stores anything: each leaves the cache as it is, so that Get finds no key.
  pub cleanup_starves :
      (c : Cache V) (key j : String) (value : V) (ct : List String) (clock : ℕ → ℤ)
      → ¬ (c.size +ℤ pos 48 ≤ℤ c.max_size)
      → (set (cleanup c) key value ct clock ≡ some (cleanup c)) × (looked_up (cleanup c) j ≡ none)
  unfolding set make_room evict pick_prey cleanup get_value get
  cleanup_starves c key j value ct clock h = (ground arith, refl)

  -- Del of a stored key on a cache whose size is exact leaves the size 40 bytes above what is stored.
  pub del_leaks :
      (c : Cache V) (key : String) (v : CacheRec V)
      → Distinct c.storage
      → get c.storage key ≡ some v
      → c.size ≡ used c
      → (del c key).size ≡ used (del c key) +ℤ pos 40
  unfolding del
  del_leaks c key v d g e =
      rw (g, del)
        (let n = Map.length-delete c.storage key v d g in unfold ◌-ℤ◌ ◌+ℤ◌ in ground (arith, n))
