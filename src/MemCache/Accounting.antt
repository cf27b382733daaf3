-- ===== src/MemCache/Accounting.antt =====
-- The size that cache/memcache/memcache.go keeps, against what it stores.
use goblocks.Prelude.Eq.{nat_eq, int_eq, string_eq}
use goblocks.Prelude.Int.{
  ℤ, pos, ◌+ℤ◌, ◌-ℤ◌, ◌≤ℤ◌, ltb_ℤ, pos_part, neg_part, +ℤ_parts, -ℤ_parts, eq_of_parts,
}
use goblocks.Prelude.Map
use goblocks.Prelude.Map.{Map, Distinct, get, put, get-delete, put-Distinct, delete-Distinct}
use goblocks.Prelude.{
  ℕ, zero, suc, ◌*◌, ◌<◌, String, ◌≡◌, refl, ap, ◌∙◌, inl, inr, Bool, true, false, none, some, List,
  [], ◌∷◌, arith, Bool-cases, Option-cases, length,
}
use goblocks.MemCache.{
  CacheRec, Cache, Call, gets, sets, dels, cleans, stale, stales, first_type, new, get_value,
  make_room, store, set_rec, set, del, cleanup, step, run,
}
use goblocks.MemCache.Eviction.{evict_lem, evicted, IsPrey}

module _ {ℓ} {V : Type ℓ} where
  -- The bytes of the stored records.
  abbrev pub used : Cache V → ℤ
  used c = pos (48 * length c.storage)

  pub record IsValid (c : Cache V) : Type ℓ where
    pub distinct : Distinct c.storage
    pub fits : c.size ≤ℤ c.max_size
    pub covers : used c ≤ℤ c.size

  pub make_room_fits :
      (fuel : ℕ) (clock : ℕ → ℤ) (sz : ℤ) (c : Cache V)
      → c.size +ℤ sz ≤ℤ c.max_size
      → make_room (suc fuel) clock sz c ≡ some (c, true)
  unfolding make_room
  make_room_fits fuel clock sz c h = ground arith

  evicted-IsValid :
      (c : Cache V) (now : ℤ) (key : String) (prey : CacheRec V)
      → IsValid c
      → IsPrey c now key prey
      → IsValid (evicted c key prey)
  unfolding ◌-ℤ◌
  evicted-IsValid c now key prey v p =
      let n = Map.length-delete c.storage key prey v.distinct p.held in
      record {
        distinct = delete-Distinct c.storage key v.distinct;
        fits = ground (arith, v.fits);
        covers = ground (arith, v.covers, n);
      }

  -- What make_room leaves, for a cache `c` and a record of size `sz`.
  pub record Room (c : Cache V) (sz : ℤ) (d : Cache V) (room : Bool) : Type ℓ where
    pub valid : IsValid d
    pub same_max : d.max_size ≡ c.max_size
    pub fits : room ≡ true → d.size +ℤ sz ≤ℤ c.max_size
    pub exact : c.size ≡ used c → d.size ≡ used d
    pub kept : (k : String) → get c.storage k ≡ none → get d.storage k ≡ none

  -- Eviction rounds: one for each stored record, and one to find that nothing is left.
  pub make_room_lem :
      (fuel : ℕ) (clock : ℕ → ℤ) (sz : ℤ) (c : Cache V)
      → IsValid c
      → length c.storage < fuel
      → (d : Cache V) × (room : Bool) × (make_room fuel clock sz c ≡ some (d, room))
        × Room c sz d room
  unfolding make_room
  make_room_lem zero clock sz c v h = absurd (omega arith)
  make_room_lem (suc fuel) clock sz c v h = elim (Bool-cases (ltb_ℤ c.max_size (c.size +ℤ sz))) [
    | inr roomy ↦ (
      c,
      true,
      rw roomy,
      record {
        valid = v;
        same_max = refl;
        fits = λ _. ground arith;
        exact = λ e. e;
        kept = λ k g. g;
      },
    )
    | inl full ↦ elim (evict_lem c (clock 0) v.distinct) [
      | inr (_, e) ↦ (
        c,
        false,
        rw (full, e),
        record {
          valid = v;
          same_max = refl;
          fits = λ t. absurd (cc);
          exact = λ x. x;
          kept = λ k g. g;
        },
      )
      | inl (key, prey, p, e) ↦
          let n = Map.length-delete c.storage key prey v.distinct p.held in
          let (d, room, eq, r) =
            make_room_lem fuel (λ n. clock (suc n)) sz (evicted c key prey)
              (evicted-IsValid c (clock 0) key prey v p) (omega arith) in
          (
            d,
            room,
            rw (full, e) eq,
            record {
              valid = r.valid;
              same_max = r.same_max;
              fits = r.fits;
              exact = λ x. r.exact (unfold ◌-ℤ◌ in ground (arith, n));
              kept = λ k g. r.kept k (rw get-delete (ground arith));
            },
          )
    ]
  ]

  -- Set of a key that is stored: no eviction, no change of the size.
  pub set_stored :
      (c : Cache V) (key : String) (prec : CacheRec V) (value : V) (ct : List String)
      (clock : ℕ → ℤ)
      → IsValid c
      → get c.storage key ≡ some prec
      → set c key value ct clock
        ≡ some (record c {
          storage = put c.storage key (record {
            value = value;
            content_type = first_type ct;
            added_at = prec.added_at;
            use_count = prec.use_count +ℤ pos 1;
          });
        })
  unfolding set
  set_stored c key prec value ct clock v g =
      let back : (c.size -ℤ pos 48) +ℤ pos 48 ≡ c.size =
        eq_of_parts _ _
          (omega (arith, +ℤ_parts (c.size -ℤ pos 48) (pos 48), -ℤ_parts c.size (pos 48))) in
      let room =
        make_room_fits (length c.storage) (λ n. clock (suc n)) (pos 48)
          (record c { size = c.size -ℤ pos 48 }) (rw back v.fits) in
      rw (g, set) (rw (room, set_rec) (rw back))

  -- What a call leaves of a cache `c`.
  pub record After (c d : Cache V) : Type ℓ where
    pub valid : IsValid d
    pub same_max : d.max_size ≡ c.max_size

  put_old-IsValid :
      (c : Cache V) (key : String) (prec rec : CacheRec V)
      → IsValid c
      → get c.storage key ≡ some prec
      → IsValid (record c { storage = put c.storage key rec })
  put_old-IsValid c key prec rec v g = record {
    distinct = put-Distinct c.storage key rec v.distinct;
    fits = v.fits;
    covers = rw (Map.length-put_old c.storage key rec prec g) v.covers;
  }

  -- Set of a new key, after the room was made.
  store-IsValid :
      (c d : Cache V) (room : Bool) (key : String) (rec : CacheRec V)
      → get c.storage key ≡ none
      → Room c (pos 48) d room
      → After c (store key rec (pos 48) (d, room))
        × (c.size ≡ used c
            → (store key rec (pos 48) (d, room)).size ≡ used (store key rec (pos 48) (d, room)))
  store-IsValid c d false key rec g r = (record { valid = r.valid; same_max = r.same_max }, r.exact)
  store-IsValid c d true key rec g r =
      let n = Map.length-put_new d.storage key rec (r.kept key g) in
      let p = +ℤ_parts d.size (pos 48) in
      (
        record {
          valid = record {
            distinct = put-Distinct d.storage key rec r.valid.distinct;
            fits = omega (arith, r.fits refl, ap pos_part r.same_max, ap neg_part r.same_max);
            covers = rw n (omega (arith, r.valid.covers, p));
          };
          same_max = r.same_max;
        },
        λ e.
            eq_of_parts _ _
              (rw n (omega (arith, p, ap pos_part (r.exact e), ap neg_part (r.exact e)))),
      )

  pub set_lem :
      (c : Cache V) (key : String) (value : V) (ct : List String) (clock : ℕ → ℤ)
      → IsValid c
      → (d : Cache V) × (set c key value ct clock ≡ some d)
        × After c d
        × (c.size ≡ used c → d.size ≡ used d)
  unfolding set
  set_lem c key value ct clock v = elim (Option-cases (get c.storage key)) [
    | inr (prec, g) ↦
        let rec : CacheRec V = record {
          value = value;
          content_type = first_type ct;
          added_at = prec.added_at;
          use_count = prec.use_count +ℤ pos 1;
        } in
        (
          record c { storage = put c.storage key rec },
          set_stored c key prec value ct clock v g,
          record { valid = put_old-IsValid c key prec rec v g; same_max = refl },
          λ e. rw (Map.length-put_old c.storage key rec prec g) e,
        )
    | inl g ↦
        let rec : CacheRec V = record {
          value = value;
          content_type = first_type ct;
          added_at = clock 0;
          use_count = pos 0 +ℤ pos 1;
        } in
        let (d, room, e, r) =
          make_room_lem (suc (length c.storage)) (λ n. clock (suc n)) (pos 48) c v (omega arith) in
        let (a, x) = store-IsValid c d room key rec g r in
        (store key rec (pos 48) (d, room), rw (g, set) (rw (e, set_rec)), a, x)
  ]

  get_value-After : (c : Cache V) (key : String) → IsValid c → After c (get_value c key).0
  unfolding get_value
  get_value-After c key v = elim (Option-cases (get c.storage key)) [
    | inl g ↦ rw (g, get_value) (record { valid = v; same_max = refl })
    | inr (w, g) ↦
        rw (g, get_value) (record { valid = put_old-IsValid c key w _ v g; same_max = refl })
  ]

  del-After : (c : Cache V) (key : String) → IsValid c → After c (del c key)
  unfolding del
  del-After c key v = elim (Option-cases (get c.storage key)) [
    | inl g ↦ rw (g, del) (record { valid = v; same_max = refl })
    | inr (w, g) ↦
        let n = Map.length-delete c.storage key w v.distinct g in
        let p = -ℤ_parts c.size (pos 8) in
        rw (g, del)
          (record {
            valid = record {
              distinct = delete-Distinct c.storage key v.distinct;
              fits = omega (arith, v.fits, p);
              covers = omega (arith, v.covers, n, p);
            };
            same_max = refl;
          })
  ]

  stale-After : (c : Cache V) (key : String) (now : ℤ) → IsValid c → After c (stale c key now)
  unfolding stale
  stale-After c key now v = elim (Option-cases (get c.storage key)) [
    | inl g ↦ rw (g, stale) (record { valid = v; same_max = refl })
    | inr (w, g) ↦ rw (g, stale) (record { valid = put_old-IsValid c key w _ v g; same_max = refl })
  ]

  step_lem :
      (c : Cache V) (call : Call V) → IsValid c → (d : Cache V) × (step c call ≡ some d) × After c d
  unfolding step
  step_lem c (gets key) v = ((get_value c key).0, refl, get_value-After c key v)
  step_lem c (sets key value ct clock) v =
      let (d, e, a, x) = set_lem c key value ct clock v in (d, e, a)
  step_lem c (dels key) v = (del c key, refl, del-After c key v)
  step_lem c (stales key now) v = (stale c key now, refl, stale-After c key now v)
  step_lem c cleans v = (
    cleanup c,
    refl,
    unfold cleanup in
        record {
          valid = record { distinct = tt; fits = v.fits; covers = omega (arith, v.covers) };
          same_max = refl;
        },
  )

  run_lem :
      (c : Cache V) (calls : List (Call V))
      → IsValid c
      → (d : Cache V) × (run c calls ≡ some d) × After c d
  unfolding run
  run_lem c [] v = (c, refl, record { valid = v; same_max = refl })
  run_lem c (call ∷ calls) v =
      let (d, e, a) = step_lem c call v in
      let (d', e', a') = run_lem d calls a.valid in
      (d', rw (e, run) e', record { valid = a'.valid; same_max = a'.same_max ∙ a.same_max })

  -- Whatever calls a new cache of size `max_size`, not negative, has seen, each call returned (the
  -- eviction loop of Set ends), each key is stored once, and the 48 bytes of each stored record add
  -- up to at most the size that the cache keeps, which is at most `max_size`.
  pub run-IsValid :
      (max_size : ℤ) (calls : List (Call V))
      → pos 0 ≤ℤ max_size
      → (c : Cache V) × (run (new max_size) calls ≡ some c) × IsValid c × (c.max_size ≡ max_size)
  run-IsValid max_size calls h =
      let (c, e, a) =
        run_lem (new max_size) calls
          (unfold new in record { distinct = tt; fits = h; covers = omega arith }) in
      (c, e, a.valid, a.same_max ∙ (unfold new in refl))
