-- ===== src/Service/Races/Slow.antt =====
-- A race in which the load timeout is longer than the TTL: internal/service/callgroup.go and
-- internal/cache/cache.go.
use storefront.Common.{
  Text, [], arith, lt→ltb, none, refl, some, subst, suc, zero, ℕ, ◌+◌, ◌<◌, ◌∷◌, ◌≡◌,
}
use storefront.Cache.{
  CachePlatform, Cell, encode_product, get_entry, item, live, new_tombstone, set_cmd,
}
use storefront.Domain.Products.{Product}
use storefront.Errors.{ok}
use storefront.Service.{product_from}
use storefront.Service.Races.{
  Flight, Race, RaceRun, at_rest, begins, commits, fills, invalidates, loads, stay, then_step,
  waits,
}
use storefront.Service.Reads.{Fills, Fills-answer}

module _ (c : CachePlatform) (load_timeout : ℕ) where
  abbrev at : Race → ℕ → Race
  at r n = record r { now = n }

  waits_for :
      (r s : Race) (n : ℕ)
      → RaceRun c load_timeout r s
      → RaceRun c load_timeout r (at s (s.now + n))
  waits_for r s zero run_to =
      subst (λ (k : ℕ). RaceRun c load_timeout r (at s k)) (omega arith) run_to
  waits_for r s (suc n) run_to =
      subst (λ (k : ℕ). RaceRun c load_timeout r (at s k)) (omega arith)
        (then_step _ _ _ (waits_for r s n run_to) (waits (at s (s.now + n))))

  module _ (old new : Product) (now drawn : ℕ) where
    -- a flight that has loaded the old row before the writer commits
    abbrev slow_flight : Flight
    slow_flight = record { began = now; prev = get_entry c none; loaded = some (some old) }

    abbrev loaded_old : Race
    loaded_old = record (at_rest (some old) now drawn) { flights = slow_flight ∷ [] }

    abbrev invalidated_behind : Race
    invalidated_behind = record loaded_old {
      row = some new;
      cell = item (new_tombstone c drawn) (now + c.ttl);
      drawn = drawn + 1;
    }

    begins_slow : RaceRun c load_timeout (at_rest (some old) now drawn) loaded_old
    unfolding live
    begins_slow =
        then_step _ _ _
          (then_step _ _ _ (stay (at_rest (some old) now drawn))
            (begins (at_rest (some old) now drawn) refl))
          (loads _ [] [] (record slow_flight { loaded = none }) refl)

    invalidates_behind : RaceRun c load_timeout (at_rest (some old) now drawn) invalidated_behind
    invalidates_behind =
        then_step _ _ _ (then_step _ _ _ begins_slow (commits loaded_old (some new)))
          (invalidates (record loaded_old { row = some new; pending = 1 }) 0 refl)

    abbrev restored : Text → Race
    restored value = record invalidated_behind {
      now = now + c.ttl;
      cell = item value (now + c.ttl + c.ttl);
      flights = [];
    }

    expired : (raw : Text) → live (now + c.ttl) (item raw (now + c.ttl)) ≡ none
    unfolding live
    expired raw = ground arith

    fills_expired :
        (value : Text)
        → set_cmd
            (now + c.ttl)
            value
            c.ttl
            (get_entry c none)
            (item (new_tombstone c drawn) (now + c.ttl))
          ≡ item value (now + c.ttl + c.ttl)
    unfolding set_cmd
    fills_expired value = rw (expired (new_tombstone c drawn)) refl

    restores :
        (value : Text)
        → encode_product c old ≡ some value
        → c.ttl < load_timeout
        → RaceRun c load_timeout (at_rest (some old) now drawn) (restored value)
    unfolding Fills
    restores value encodes slow =
        subst
          (λ (cell : Cell).
            RaceRun c load_timeout (at_rest (some old) now drawn)
              (record (restored value) { cell = cell }))
          (fills_expired value)
          (then_step _ _ _ (waits_for _ invalidated_behind c.ttl invalidates_behind) (
            fills (at invalidated_behind (now + c.ttl)) [] [] slow_flight (some old) value refl refl
              encodes (omega arith)))

-- Where the load timeout is longer than the lifetime of the cache's entries and tombstones, a read that
-- began before a write can end behind it and leave the row from before the write in the cache, although
-- the writer has invalidated the key: the cache then answers the old row and the store has the new one.
pub slow_flight_restores_old :
    (c : CachePlatform) (load_timeout : ℕ) (old new : Product) (now drawn : ℕ) (value : Text)
    → encode_product c old ≡ some value
    → 0 < c.ttl
    → c.ttl < load_timeout
    → (s : Race) × RaceRun c load_timeout (at_rest (some old) now drawn) s
      × (s.pending ≡ 0)
      × (s.row ≡ some new)
      × (product_from (get_entry c (live s.now s.cell)) ≡ ok old)
unfolding live Fills
slow_flight_restores_old c load_timeout old new now drawn value encodes lasts slow = (
  restored c load_timeout old new now drawn value,
  restores c load_timeout old new now drawn value encodes slow,
  refl,
  refl,
  rw (lt→ltb (now + c.ttl) (now + c.ttl + c.ttl) (omega arith))
      (Fills-answer c (some old) value encodes),
)
