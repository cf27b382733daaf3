-- ===== src/MemCache/Eviction.antt =====
-- Which entry `evict` of cache/memcache/memcache.go removes.
use goblocks.Prelude.Eq.{nat_eq, int_eq, string_eq}
use goblocks.Prelude.Int.{ℤ, ◌-ℤ◌, ◌≤ℤ◌, ◌<ℤ◌, ltb_ℤ}
use goblocks.Prelude.Map.{Map, Distinct, get, delete}
use goblocks.Prelude.{
  String, ◌≡◌, ◌⊎◌, inl, inr, true, false, ◌&&◌, Option, none, some, [], ◌∷◌, arith, if◌then◌else◌,
  Bool-cases, Option-cases,
}
use goblocks.MemCache.{
  CacheRec, Cache, keep_first, value_size, rec_value, less_used, pick_prey, evict,
}

module _ {ℓ} {V : Type ℓ} where
  pick_found :
      (from : ℤ) (p : Option (String × CacheRec V)) (m : Map String (CacheRec V)) (k : String)
      (v : CacheRec V)
      → Distinct m
      → pick_prey from p m ≡ some (k, v)
      → (p ≡ some (k, v)) ⊎ ((get m k ≡ some v) × (ltb_ℤ v.added_at from ≡ true))
  unfolding pick_prey get
  pick_found from p [] k v d h = inl h
  pick_found from p ((i, w) ∷ m) k v d h =
      elim (pick_found from (if ltb_ℤ w.added_at from && less_used w p then some (i, w) else p) m k
        v d.1 h) [
          | inl e ↦ elim (Bool-cases (ltb_ℤ w.added_at from && less_used w p)) [
            | inl t ↦ inr (ground (arith, string_eq.beq_iff i k), ground arith)
            | inr t ↦ inl (ground arith)
          ]
          | inr (g, s) ↦ inr (ground (arith, d.0, string_eq.beq_iff i k), s)
        ]

  -- the entry with the least use count so far
  pick_least :
      (from : ℤ) (p : Option (String × CacheRec V)) (m : Map String (CacheRec V)) (k : String)
      (v : CacheRec V)
      → pick_prey from p m ≡ some (k, v)
      → ((j : String) (w : CacheRec V) → p ≡ some (j, w) → v.use_count ≤ℤ w.use_count)
        × ((j : String) (w : CacheRec V)
            → get m j ≡ some w
            → w.added_at <ℤ from
            → v.use_count ≤ℤ w.use_count)
  unfolding pick_prey get
  pick_least from p [] k v h = ((λ j w e. ground arith), (λ j w e s. absurd (cc)))
  pick_least from p ((i, u) ∷ m) k v h =
      let q : Option (String × CacheRec V) =
        if ltb_ℤ u.added_at from && less_used u p then some (i, u) else p in
      let ih = pick_least from q m k v h in
      elim (Option-cases p) [
        | inl absent ↦ ((λ j w e. cc), (λ j w e s. ground (arith, ih.0 i u, ih.1 j w)))
        | inr ((k', w'), held) ↦ (
          (λ j w e. ground (arith, ih.0 i u, ih.0 j w)),
          (λ j w e s. ground (arith, ih.0 i u, ih.0 k' w', ih.1 j w)),
        )
      ]

  pick_none :
      (from : ℤ) (p : Option (String × CacheRec V)) (m : Map String (CacheRec V))
      → pick_prey from p m ≡ none
      → (p ≡ none)
        × ((j : String) (w : CacheRec V) → get m j ≡ some w → ltb_ℤ w.added_at from ≡ false)
  unfolding pick_prey get
  pick_none from p [] h = (h, (λ j w e. cc))
  pick_none from p ((i, u) ∷ m) h =
      let q : Option (String × CacheRec V) =
        if ltb_ℤ u.added_at from && less_used u p then some (i, u) else p in
      let ih = pick_none from q m h in
      (ground (arith, ih.0), (λ j w e. ground (arith, ih.0, ih.1 j w)))

  -- The entry (key, prey) may be evicted at the time `now`, and no other such entry is used less.
  pub record IsPrey (c : Cache V) (now : ℤ) (key : String) (prey : CacheRec V) : Type ℓ where
    pub held : get c.storage key ≡ some prey
    pub stale : prey.added_at <ℤ now -ℤ keep_first
    pub least :
        (j : String) (w : CacheRec V)
        → get c.storage j ≡ some w
        → w.added_at <ℤ now -ℤ keep_first
        → prey.use_count ≤ℤ w.use_count

  abbrev pub evicted : Cache V → String → CacheRec V → Cache V
  evicted c key prey = record c {
    size = c.size -ℤ value_size (rec_value prey);
    storage = delete c.storage key;
  }

  -- In a cache that holds each key once, evict removes one entry that was added more than five
  -- minutes ago and that no other such entry undercuts in use count, and takes its size off; if
  -- there is no entry that old, it changes nothing and answers false. The package comment speaks of
  -- the least recently used entry instead; the time of use is recorded nowhere.
  pub evict_lem :
      (c : Cache V) (now : ℤ)
      → Distinct c.storage
      → ((key : String) × (prey : CacheRec V) × IsPrey c now key prey
          × (evict c now ≡ (evicted c key prey, true)))
        ⊎ (((j : String) (w : CacheRec V)
              → get c.storage j ≡ some w
              → ¬ (w.added_at <ℤ now -ℤ keep_first))
            × (evict c now ≡ (c, false)))
  unfolding evict
  evict_lem c now d = elim (Option-cases (pick_prey (now -ℤ keep_first) none c.storage)) [
    | inl e ↦ inr (
      (λ j w g s. ground (arith, (pick_none (now -ℤ keep_first) none c.storage e).1 j w)),
      rw (e, evict),
    )
    | inr ((key, prey), e) ↦ elim (pick_found (now -ℤ keep_first) none c.storage key prey d e) [
      | inl none_some ↦ absurd (cc)
      | inr (g, s) ↦ inl (
        key,
        prey,
        record {
          held = g;
          stale = ground arith;
          least = (pick_least (now -ℤ keep_first) none c.storage key prey e).1;
        },
        rw (e, evict),
      )
    ]
  ]
