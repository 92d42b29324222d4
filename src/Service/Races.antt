-- ===== src/Service/Races.antt =====
-- Readers and writers of one product that run at a time, over the same cache key: the steps between
-- which other processes may run.
pub mod Kept
pub mod Steps
pub mod Fresh
pub mod Slow
use storefront.Common.{List, Option, Text, [], false, none, some, ℕ, ◌++◌, ◌+◌, ◌<◌, ◌∷◌, ◌≡◌}
use storefront.Cache.{CachePlatform, Cell, Entry, get_entry, item, live, new_tombstone, set_cmd}
use storefront.Domain.Products.{Product}
use storefront.Service.Reads.{Fills}

-- A flight of loadProduct behind its Get that was no hit.
pub record Flight : Type 0 where
  pub began : ℕ
  pub prev : Entry
  -- what the store has answered, once it has
  pub loaded : Option (Option Product)

-- `pending` counts the writers that have committed and not invalidated yet.
pub record Race : Type 0 where
  pub row : Option Product
  pub cell : Cell
  pub now : ℕ
  pub drawn : ℕ
  pub pending : ℕ
  pub flights : List Flight

abbrev pub fill_ttl : CachePlatform → Option Product → ℕ
fill_ttl c none = c.neg_ttl
fill_ttl c (some p) = c.ttl

-- `load_timeout` ends a flight; a call of its context is not made later
pub data RaceStep (c : CachePlatform) (load_timeout : ℕ) : Race → Race → Type 0 where
  -- a writer commits
  commits :
      (r : Race) (row : Option Product)
      → RaceStep c load_timeout r (record r { row = row; pending = r.pending + 1 })
  -- a writer invalidates the key
  invalidates :
      (r : Race) (n : ℕ)
      → r.pending ≡ n + 1
      → RaceStep c load_timeout r (record r {
        cell = item (new_tombstone c r.drawn) (r.now + c.ttl);
        drawn = r.drawn + 1;
        pending = n;
      })
  waits : (r : Race) → RaceStep c load_timeout r (record r { now = r.now + 1 })
  -- the Get of a flight, which is no hit
  begins :
      (r : Race)
      → (get_entry c (live r.now r.cell)).hit ≡ false
      → RaceStep c load_timeout r (record r {
        flights =
            record { began = r.now; prev = get_entry c (live r.now r.cell); loaded = none }
            ∷ r.flights;
      })
  -- the store answers it
  loads :
      (r : Race) (pre post : List Flight) (f : Flight)
      → r.flights ≡ pre ++ f ∷ post
      → RaceStep c load_timeout r
          (record r { flights = pre ++ record f { loaded = some r.row } ∷ post })
  -- it fills the cache
  fills :
      (r : Race) (pre post : List Flight) (f : Flight) (row : Option Product) (value : Text)
      → r.flights ≡ pre ++ f ∷ post
      → f.loaded ≡ some row
      → Fills c row value
      → r.now < f.began + load_timeout
      → RaceStep c load_timeout r (record r {
        cell = set_cmd r.now value (fill_ttl c row) f.prev r.cell;
        flights = pre ++ post;
      })
  -- it ends without a fill
  ends :
      (r : Race) (pre post : List Flight) (f : Flight)
      → r.flights ≡ pre ++ f ∷ post
      → RaceStep c load_timeout r (record r { flights = pre ++ post })

pub data RaceRun (c : CachePlatform) (load_timeout : ℕ) : Race → Race → Type 0 where
  stay : (r : Race) → RaceRun c load_timeout r r
  then_step :
      (r s t : Race)
      → RaceRun c load_timeout r s
      → RaceStep c load_timeout s t
      → RaceRun c load_timeout r t

-- no flight, no write under way, and nothing in the cache
abbrev pub at_rest : Option Product → ℕ → ℕ → Race
at_rest row now drawn = record {
  row = row;
  cell = none;
  now = now;
  drawn = drawn;
  pending = 0;
  flights = [];
}
