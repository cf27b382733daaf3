-- ===== src/MemCache.antt =====
-- cache/memcache/memcache.go: a cache of bounded size that evicts the least used entry that is older
-- than five minutes. Each method holds the lock for its whole body. Times are Unix seconds; `clock n`
-- is what the n-th call of time.Now in a method returns.
pub mod Eviction
pub mod Accounting
pub mod Contents
mod Tests
use goblocks.Prelude.Eq.{nat_eq, int_eq, string_eq}
use goblocks.Prelude.Int.{ℤ, pos, ◌+ℤ◌, ◌-ℤ◌, ltb_ℤ}
use goblocks.Prelude.Map
use goblocks.Prelude.Map.{Map, get, put, delete}
use goblocks.Prelude.{
  ℕ, zero, suc, String, Bool, true, false, ◌&&◌, Option, none, some, List, [], ◌∷◌, if◌then◌else◌,
  length,
}

-- keepFirst, in seconds
abbrev pub keep_first : ℤ
keep_first = pos 300

pub record CacheRec {ℓ} (V : Type ℓ) : Type ℓ where
  pub value : V
  pub content_type : String
  pub added_at : ℤ
  pub use_count : ℤ

pub record Cache {ℓ} (V : Type ℓ) : Type ℓ where
  pub max_size : ℤ
  pub size : ℤ
  pub storage : Map String (CacheRec V)

-- The dynamic type of the argument of valueSize: a cacheRec, or a pointer to one.
pub data Boxed {ℓ} (V : Type ℓ) : Type ℓ where
  rec_value rec_pointer : CacheRec V → Boxed V

-- the first of the optional content types
abbrev pub first_type : List String → String
first_type [] = ""
first_type (ct ∷ _) = ct

module _ {ℓ} {V : Type ℓ} where
  -- valueSize on a 64-bit machine: two interfaces or strings of 16 bytes and two words; a pointer is
  -- a word.
  abbrev pub value_size : Boxed V → ℤ
  value_size (rec_value _) = pos 48
  value_size (rec_pointer _) = pos 8

  -- New
  pub new : ℤ → Cache V
  new size = record { max_size = size; size = pos 0; storage = [] }

  -- Get
  pub get_value : Cache V → String → Cache V × Option (V × String)
  get_value c key = elim (get c.storage key) [
    | none ↦ (c, none)
    | some v ↦ (
      record c { storage = put c.storage key (record v { use_count = v.use_count +ℤ pos 1 }) },
      some (v.value, v.content_type),
    )
  ]

  -- prey == nil || v.UseCount < prey.UseCount
  abbrev pub less_used : CacheRec V → Option (String × CacheRec V) → Bool
  less_used v none = true
  less_used v (some (_, prey)) = ltb_ℤ v.use_count prey.use_count

  -- the range of evict
  pub pick_prey :
      ℤ → Option (String × CacheRec V) → Map String (CacheRec V) → Option (String × CacheRec V)
  pick_prey from prey [] = prey
  pick_prey from prey ((k, v) ∷ m) =
      pick_prey from (if ltb_ℤ v.added_at from && less_used v prey then some (k, v) else prey) m

  -- evict
  pub evict : Cache V → ℤ → Cache V × Bool
  evict c now = elim (pick_prey (now -ℤ keep_first) none c.storage) [
    | none ↦ (c, false)
    | some (key, prey) ↦ (
      record c { size = c.size -ℤ value_size (rec_value prey); storage = delete c.storage key },
      true,
    )
  ]

  -- The loop of Set on fuel: whether there is room in the end. `none` means that the fuel ran out.
  pub make_room : ℕ → (ℕ → ℤ) → ℤ → Cache V → Option (Cache V × Bool)
  make_room zero clock sz c = none
  make_room (suc fuel) clock sz c =
      let rest = make_room fuel (λ n. clock (suc n)) sz (evict c (clock 0)).0 in
      if ltb_ℤ c.max_size (c.size +ℤ sz)
      then (if (evict c (clock 0)).1 then rest else some ((evict c (clock 0)).0, false))
      else some (c, true)

  abbrev pub store : String → CacheRec V → ℤ → Cache V × Bool → Cache V
  store key rec sz (c, false) = c
  store key rec sz (c, true) = record c { size = c.size +ℤ sz; storage = put c.storage key rec }

  abbrev pub set_rec : Cache V → String → CacheRec V → (ℕ → ℤ) → Option (Cache V)
  set_rec c key rec clock =
      let sz = value_size (rec_value rec) in
      elim (make_room (suc (length c.storage)) (λ n. clock (suc n)) sz c) [
        | none ↦ none
        | some r ↦ some (store key rec sz r)
      ]

  -- Set
  pub set : Cache V → String → V → List String → (ℕ → ℤ) → Option (Cache V)
  set c key value content_type clock = elim (get c.storage key) [
    | none ↦
        set_rec c key
          (record {
            value = value;
            content_type = first_type content_type;
            added_at = clock 0;
            use_count = pos 0 +ℤ pos 1;
          })
          clock
    | some prec ↦
        set_rec (record c { size = c.size -ℤ value_size (rec_value prec) }) key
          (record {
            value = value;
            content_type = first_type content_type;
            added_at = prec.added_at;
            use_count = prec.use_count +ℤ pos 1;
          })
          clock
  ]

  -- Del; `v` is a pointer here
  pub del : Cache V → String → Cache V
  del c key = elim (get c.storage key) [
    | none ↦ c
    | some v ↦ record c {
      size = c.size -ℤ value_size (rec_pointer v);
      storage = delete c.storage key;
    }
  ]

  -- stale, which the tests call: a new record with no content type
  pub stale : Cache V → String → ℤ → Cache V
  stale c key now = elim (get c.storage key) [
    | none ↦ c
    | some v ↦ record c {
      storage = put c.storage key (record {
        value = v.value;
        content_type = "";
        added_at = now -ℤ pos 600;
        use_count = v.use_count;
      });
    }
  ]

  -- Cleanup, which deletes each key
  pub cleanup : Cache V → Cache V
  cleanup c = record c { storage = [] }

-- The calls that change the cache.
pub data Call {ℓ} (V : Type ℓ) : Type ℓ where
  gets : String → Call V
  sets : String → V → List String → (ℕ → ℤ) → Call V
  dels : String → Call V
  cleans : Call V
  stales : String → ℤ → Call V

module _ {ℓ} {V : Type ℓ} where
  pub step : Cache V → Call V → Option (Cache V)
  step c (gets key) = some (get_value c key).0
  step c (sets key value ct clock) = set c key value ct clock
  step c (dels key) = some (del c key)
  step c cleans = some (cleanup c)
  step c (stales key now) = some (stale c key now)

  pub run : Cache V → List (Call V) → Option (Cache V)
  run c [] = some c
  run c (call ∷ calls) = elim (step c call) [ none ↦ none | some d ↦ run d calls ]
