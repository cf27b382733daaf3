-- ===== src/Dbase.antt =====
-- dbase/constructor.go: New opens the pool of PostgreSQL, with retries, and runs the migrator. The pool,
-- the ping and the migrator's result are arguments; an error of theirs is a number. Times are in
-- nanoseconds.
pub mod Connected
mod Tests
use goblocks.Prelude.Text.{Text, codes}
use goblocks.Prelude.Eq.{◌==◌, nat_eq, int_eq, string_eq}
use goblocks.Prelude.Map
use goblocks.Prelude.Map.{Map}
use goblocks.Prelude.{
  ℕ, zero, suc, ◌*◌, ◌/◌, String, ◌⊎◌, inl, inr, Bool, false, not, ◌||◌, Option, none, some, List,
  [], ◌∷◌, ◌++◌, nat_beq, if◌then◌else◌, drop,
}
use goblocks.Conftool.EnvVars.{is_prefix, word_prefix}

pub record Config : Type 0 where
  pub typ : String
  pub conn_string : Text
  pub migrations : Text

-- the word after the first "dbname=" that one follows
abbrev pub named : Text × Text → Option Text
named ([], rest) = none
named (c ∷ w, rest) = some (c ∷ w)

pub find_db_name : Text → Option Text
find_db_name [] = none
find_db_name (c ∷ cs) =
    let later = find_db_name cs in
    if is_prefix (codes "dbname=") (c ∷ cs)
    then elim (named (word_prefix (drop 7 (c ∷ cs)))) [ some w ↦ some w | none ↦ later ]
    else later

pub db_name : Text → Text
unfolding find_db_name
db_name conn = elim (find_db_name conn) [ none ↦ codes "?" | some w ↦ w ]

pub data Message : Type 0 where
  unsupported_type : String → Message
  -- an error, with the name of the database
  new_failed connect_failed migration_failed : ℕ → Text → Message
  connecting : Text → Message

-- What the loop leaves: the last error, or the pool; what it slept; what it logged.
pub record Tried (P : Type 0) : Type 0 where
  pub outcome : ℕ ⊎ P
  pub slept : List ℕ
  pub messages : List Message

abbrev pub slept_first : {P : Type 0} → List ℕ → Message → Tried P → Tried P
slept_first ds m t = record {
  outcome = t.outcome;
  slept = ds ++ t.slept;
  messages = m ∷ t.messages;
}

pub next_delay : ℕ → ℕ
next_delay delay = delay * 120 / 100

module _ {P : Type 0} (open_pool : ℕ → (ℕ ⊎ P)) (name : Text) where
  -- the loop, with `left` rounds after round `i`
  pub connect_loop : ℕ → ℕ → ℕ → Tried P
  unfolding next_delay
  connect_loop zero i delay = elim (open_pool i) [
    | inr p ↦ record { outcome = inr p; slept = []; messages = [] }
    | inl e ↦ record { outcome = inl e; slept = []; messages = new_failed e name ∷ [] }
  ]
  connect_loop (suc left) i delay =
      let again = connect_loop left (suc i) (next_delay delay) in
      elim (open_pool i) [
        | inr p ↦ record { outcome = inr p; slept = []; messages = [] }
        | inl e ↦ slept_first (delay ∷ []) (new_failed e name) again
      ]

-- what becomes of a pool: nobody closes it, or the end of the context does
pub data PoolState : Type 0 where
  no_pool left_open closed_at_end : PoolState

-- the database that New returns, if any, and what else it leaves; `M` is the state of the database
pub record Opened (P : Type 0) (M : Type 0) : Type 0 where
  pub db : Option P
  pub pool : PoolState
  pub store : M
  pub slept : List ℕ
  pub messages : List Message

pub skips : List ℕ → Bool
skips [] = false
skips (op ∷ options) = nat_beq op 1 || skips options

module _ {P M : Type 0} (open_pool : ℕ → (ℕ ⊎ P)) (ping : P → Option ℕ)
    (migrate : Text → M → M × Option ℕ) where
  -- New, from the pool on
  pub finish : Config → List ℕ → M → Text → List ℕ → List Message → P → Opened P M
  unfolding skips
  finish cfg options store name slept messages p =
      let said = messages ++ connecting name ∷ [] in
      let migrated = migrate cfg.migrations store in
      elim (ping p) [
        | some e ↦ record {
          db = none;
          pool = left_open;
          store = store;
          slept = slept;
          messages = said ++ connect_failed e name ∷ [];
        }
        | none ↦
            if skips options
            then record {
              db = some p;
              pool = closed_at_end;
              store = store;
              slept = slept;
              messages = said;
            }
            else elim migrated.1 [
              | none ↦ record {
                db = some p;
                pool = closed_at_end;
                store = migrated.0;
                slept = slept;
                messages = said;
              }
              | some e ↦ record {
                db = none;
                pool = closed_at_end;
                store = migrated.0;
                slept = slept;
                messages = said ++ migration_failed e name ∷ [];
              }
            ]
      ]

  -- New; the loop has ten rounds, and the first delay is a second
  pub new : Config → List ℕ → M → Opened P M
  unfolding connect_loop finish db_name
  new cfg options store =
      let name = db_name cfg.conn_string in
      let tried = connect_loop open_pool name 9 0 1_000_000_000 in
      if not (cfg.typ == "postgres")
      then record {
        db = none;
        pool = no_pool;
        store = store;
        slept = [];
        messages = unsupported_type cfg.typ ∷ [];
      }
      else elim tried.outcome [
        | inl e ↦ record {
          db = none;
          pool = no_pool;
          store = store;
          slept = tried.slept;
          messages = tried.messages;
        }
        | inr p ↦ finish cfg options store name tried.slept tried.messages p
      ]
