-- ===== src/Dbase/Connected.antt =====
-- When dbase/constructor.go, New, gives a database.
use goblocks.Prelude.Text.{Text}
use goblocks.Prelude.Eq.{◌==◌, nat_eq, int_eq, string_eq}
use goblocks.Prelude.{
  ℕ, zero, suc, ◌+◌, ◌*◌, ◌/◌, ◌≡◌, refl, sym, ap, ◌∙◌, ◌⊎◌, inl, inr, Bool, true, false, not, ◌&&◌,
  ◌||◌, Option, none, some, List, [], ◌∷◌, arith, ltb, leb, if◌then◌else◌,
}
use goblocks.Dbase.{
  Config, db_name, Message, next_delay, connect_loop, left_open, closed_at_end, Opened, skips,
  finish, new,
}

abbrev pub fails {ℓ} : {P : Type ℓ} → ℕ ⊎ P → Bool
fails (inl e) = true
fails (inr p) = false

abbrev pub is_none {ℓ} : {A : Type ℓ} → Option A → Bool
is_none none = true
is_none (some a) = false

-- `k` sleeps, the first of `delay`, each a fifth longer than the one before, rounded down
abbrev pub delays : ℕ → ℕ → List ℕ
delays delay zero = []
delays delay (suc k) = delay ∷ delays (delay * 120 / 100) k

add_zero : (n : ℕ) → n + 0 ≡ n
add_zero n = omega arith

zero_add : (n : ℕ) → 0 + n ≡ n
zero_add n = omega arith

add_suc : (n k : ℕ) → suc n + k ≡ n + suc k
add_suc n k = omega arith

module _ {P : Type 0} (open_pool : ℕ → (ℕ ⊎ P)) (name : Text) where
  Connects : ℕ → ℕ → ℕ → ℕ → P → Type 0
  Connects left i delay k p =
      ((connect_loop open_pool name left i delay).outcome ≡ inr p)
      × ((connect_loop open_pool name left i delay).slept ≡ delays delay k)

  connect_loop-first : (left i delay : ℕ) (p : P) → open_pool i ≡ inr p → Connects left i delay 0 p
  unfolding Connects connect_loop
  connect_loop-first zero i delay p q = rw (connect_loop, q) (refl, refl)
  connect_loop-first (suc left) i delay p q = rw (connect_loop, q) (refl, refl)

  connect_loop-next :
      (left i delay k : ℕ) (p : P)
      → fails (open_pool i) ≡ true
      → Connects left (suc i) (next_delay delay) k p
      → Connects (suc left) i delay (suc k) p
  unfolding Connects connect_loop next_delay
  connect_loop-next left i delay k p f c = ground (arith, f, c)

  connect_loop-Connects :
      (left i delay k : ℕ) (p : P)
      → leb k left ≡ true
      → ((j : ℕ) → ltb j k ≡ true → fails (open_pool (i + j)) ≡ true)
      → open_pool (i + k) ≡ inr p
      → Connects left i delay k p
  connect_loop-Connects left i delay zero p b f q =
      connect_loop-first left i delay p (ap open_pool (sym (add_zero i)) ∙ q)
  connect_loop-Connects zero i delay (suc k) p b f q = ground (arith, b)
  connect_loop-Connects (suc left) i delay (suc k) p b f q =
      connect_loop-next left i delay k p
        (ap (λ n. fails (open_pool n)) (sym (add_zero i)) ∙ f 0 (ground arith))
        (connect_loop-Connects left (suc i) (next_delay delay) k p (ground (arith, b))
          (λ j h. ap (λ n. fails (open_pool n)) (add_suc i j) ∙ f (suc j) (ground (arith, h)))
          (ap open_pool (add_suc i k) ∙ q))

module _ {P M : Type 0} (open_pool : ℕ → (ℕ ⊎ P)) (ping : P → Option ℕ)
    (migrate : Text → M → M × Option ℕ) (cfg : Config) (options : List ℕ) (store : M) where
  -- What New leaves once it has the pool `p`, having slept `slept`.
  abbrev pub Given : P → List ℕ → Opened P M → Type 0
  Given p slept o =
      let migrated = migrate cfg.migrations store in
      (o.slept ≡ slept)
      × (o.pool ≡ (if is_none (ping p) then closed_at_end else left_open))
      × (o.store ≡ (if is_none (ping p) && not (skips options) then migrated.0 else store))
      × (o.db
          ≡ (if is_none (ping p) && (skips options || is_none migrated.1) then some p else none))

  finish-Given :
      (name : Text) (slept : List ℕ) (messages : List Message) (p : P)
      → Given p slept (finish open_pool ping migrate cfg options store name slept messages p)
  unfolding finish
  finish-Given name slept messages p = grind arith

  -- If the configuration asks for PostgreSQL and one of the first ten attempts to open the pool
  -- succeeds, the `k`-th, counted from 0, being the first, then New sleeps `k` times, a second at
  -- first and each time a fifth longer; the migrations are applied if the ping succeeds and they are
  -- not skipped; a database is given if the ping succeeds and the migrations do, or are skipped; and
  -- when the ping fails, nobody closes the pool.
  pub new-Given :
      (k : ℕ) (p : P)
      → (cfg.typ == "postgres") ≡ true
      → ltb k 10 ≡ true
      → ((j : ℕ) → ltb j k ≡ true → fails (open_pool j) ≡ true)
      → open_pool k ≡ inr p
      → Given p (delays 1_000_000_000 k) (new open_pool ping migrate cfg options store)
  unfolding new Connects
  new-Given k p t b f q =
      let c =
        connect_loop-Connects open_pool (db_name cfg.conn_string) 9 0 1_000_000_000 k p
          (ground (arith, b)) (λ j h. ap (λ n. fails (open_pool n)) (zero_add j) ∙ f j h)
          (ap open_pool (zero_add k) ∙ q) in
      rw (new, t, c.0, c.1)
        (finish-Given (db_name cfg.conn_string) (delays 1_000_000_000 k)
          (connect_loop open_pool (db_name cfg.conn_string) 9 0 1_000_000_000).messages p)
