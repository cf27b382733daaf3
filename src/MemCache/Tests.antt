-- ===== src/MemCache/Tests.antt =====
-- The theorems on cache/memcache/memcache.go at concrete inputs.
use goblocks.Prelude.Eq.{nat_eq, int_eq, string_eq}
use goblocks.Prelude.Int.{ℤ, pos, ◌+ℤ◌, ◌-ℤ◌, ◌<ℤ◌}
use goblocks.Prelude.Map.{get}
use goblocks.Prelude.{ℕ, ◌+◌, String, ◌≡◌, refl, ◌⊎◌, true, false, none, some, List, [], ◌∷◌, arith}
use goblocks.MemCache.{
  CacheRec, Cache, Call, gets, sets, dels, cleans, keep_first, new, evict, set, del, cleanup, run,
}
use goblocks.MemCache.Eviction.{evict_lem, evicted, IsPrey}
use goblocks.MemCache.Accounting.{IsValid, used, run-IsValid}
use goblocks.MemCache.Contents.{looked_up, get-set_stored, get-set_new, cleanup_starves, del_leaks}

abbrev entry : ℕ → ℤ → CacheRec ℕ
entry v t = record { value = v; content_type = "text/plain"; added_at = t; use_count = pos 1 }

abbrev two_entries : Cache ℕ
two_entries = record {
  max_size = pos 96;
  size = pos 96;
  storage = ("a", entry 123 (pos 0)) ∷ ("b", entry 456 (pos 900)) ∷ [];
}

abbrev clock : ℕ → ℤ
clock n = pos (1000 + n)

two_entries-IsValid : IsValid two_entries
unfolding get
two_entries-IsValid = record {
  distinct = (refl, (refl, tt));
  fits = omega arith;
  covers = omega arith;
}

abbrev calls : List (Call ℕ)
calls =
    sets "a" 1 ("text/html" ∷ []) clock ∷ gets "a" ∷ sets "b" 2 [] clock ∷ dels "a" ∷ cleans ∷ []

run-IsValid_example :
    (c : Cache ℕ) × (run (new (pos 48)) calls ≡ some c) × IsValid c × (c.max_size ≡ pos 48)
run-IsValid_example = run-IsValid (pos 48) calls (omega arith)

evict_lem_example :
    ((key : String) × (prey : CacheRec ℕ) × IsPrey two_entries (pos 1000) key prey
      × (evict two_entries (pos 1000) ≡ (evicted two_entries key prey, true)))
    ⊎ (((j : String) (w : CacheRec ℕ)
          → get two_entries.storage j ≡ some w
          → ¬ (w.added_at <ℤ pos 1000 -ℤ keep_first))
        × (evict two_entries (pos 1000) ≡ (two_entries, false)))
evict_lem_example = evict_lem two_entries (pos 1000) two_entries-IsValid.distinct

get-set_stored_example :
    (d : Cache ℕ) × (set two_entries "a" 7 ("x" ∷ "y" ∷ []) clock ≡ some d)
    × (looked_up d "a" ≡ some (7, "x"))
    × (get d.storage "a"
        ≡ some (record {
          value = 7;
          content_type = "x";
          added_at = pos 0;
          use_count = pos 1 +ℤ pos 1;
        }))
    × (d.size ≡ pos 96)
    × (d.max_size ≡ two_entries.max_size)
unfolding get
get-set_stored_example =
    get-set_stored two_entries "a" "a" (entry 123 (pos 0)) 7 ("x" ∷ "y" ∷ []) clock
      two_entries-IsValid refl

room_for_one :
    (d : Cache ℕ) × (set (new (pos 48)) "a" 7 [] clock ≡ some d)
    × (looked_up d "a" ≡ some (7, ""))
    × (d.size ≡ (new {V = ℕ} (pos 48)).size +ℤ pos 48)
unfolding get new ◌+ℤ◌
room_for_one = get-set_new (new (pos 48)) "a" "a" 7 [] clock refl (omega arith)

starved :
    (set (cleanup two_entries) "c" 7 [] clock ≡ some (cleanup two_entries))
    × (looked_up (cleanup two_entries) "c" ≡ none)
unfolding ◌+ℤ◌
starved = cleanup_starves two_entries "c" "c" 7 [] clock (λ h. omega arith)

del_leaks_tried : (del two_entries "a").size ≡ used (del two_entries "a") +ℤ pos 40
unfolding get
del_leaks_tried =
    del_leaks two_entries "a" (entry 123 (pos 0)) two_entries-IsValid.distinct refl refl
