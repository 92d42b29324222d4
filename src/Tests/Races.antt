-- ===== src/Tests/Races.antt =====
-- A race of a reader and a writer, step by step, and one with a slow flight.
use storefront.Common.{Text, [], ap, arith, codes, none, pos, refl, some, text_eq, ◌∷◌, ◌≡◌}
use storefront.Cache.{
  classify, empty_entry, encode_product, get_entry, item, live, new_tombstone, set_cmd,
  unread_entry,
}
use storefront.Domain.Products.{Product}
use storefront.Errors.{ok}
use storefront.Service.{product_from}
use storefront.Service.Races.{
  Flight, Race, RaceRun, at_rest, begins, commits, fills, invalidates, loads, stay, then_step,
}
use storefront.Service.Races.Fresh.{races_fresh}
use storefront.Service.Races.Slow.{slow_flight_restores_old}
use storefront.Service.Reads.{Fills, FreshCell}
use storefront.Tests.Cache.{cache_platform, payload, payload_encodes, stored_widget}
use storefront.Tests.Data.{widget}

abbrev restocked : Product
restocked = record widget { stock = pos 50; version = 2 }

abbrev new_payload : Text
new_payload = b'p' ∷ 2 ∷ 0 ∷ 50 ∷ 0 ∷ 999 ∷ 1 ∷ 6 ∷ 7 ∷ codes "widgetPLN"

new_payload_encodes : encode_product cache_platform restocked ≡ some new_payload
unfolding encode_product
new_payload_encodes = refl

abbrev start : Race
start = at_rest (some stored_widget) 1000 0

abbrev old_flight : Flight
old_flight = record { began = 1000; prev = empty_entry; loaded = some (some stored_widget) }

-- the old row is loaded when the new one is committed
abbrev overtaken : Race
overtaken = record start { row = some restocked; pending = 1; flights = old_flight ∷ [] }

overtakes : RaceRun cache_platform 1000 start overtaken
unfolding live
overtakes =
    then_step _ _ _
      (then_step _ _ _ (then_step _ _ _ (stay start) (begins start refl))
        (loads _ [] [] (record old_flight { loaded = none }) refl))
      (commits _ (some restocked))

abbrev invalidated : Race
invalidated = record overtaken {
  cell = item (new_tombstone cache_platform 0) 301000;
  drawn = 1;
  pending = 0;
}

invalidates_key : RaceRun cache_platform 1000 start invalidated
invalidates_key = then_step _ _ _ overtakes (invalidates overtaken 0 refl)

abbrev refused : Race
refused = record invalidated { flights = [] }

-- the stale fill changes nothing
refuses : RaceRun cache_platform 1000 start refused
unfolding set_cmd live Fills
refuses = then_step _ _ _ invalidates_key (
    fills invalidated [] [] old_flight (some stored_widget) payload refl refl payload_encodes
      (omega arith))

abbrev new_flight : Flight
new_flight = record {
  began = 1000;
  prev = unread_entry (new_tombstone cache_platform 0);
  loaded = some (some restocked);
}

abbrev loaded_new : Race
loaded_new = record refused { flights = new_flight ∷ [] }

loads_new : RaceRun cache_platform 1000 start loaded_new
unfolding live classify new_tombstone
loads_new =
    then_step _ _ _ (then_step _ _ _ refuses (begins refused refl))
      (loads _ [] [] (record new_flight { loaded = none }) refl)

abbrev filled_new : Race
filled_new = record refused { cell = item new_payload 301000 }

fills_new : RaceRun cache_platform 1000 start filled_new
unfolding set_cmd live Fills text_eq new_tombstone
fills_new = then_step _ _ _ loads_new (
    fills loaded_new [] [] new_flight (some restocked) new_payload refl refl new_payload_encodes
      (omega arith))

races_fresh_example : FreshCell cache_platform (some restocked) 1000 (item new_payload 301000)
races_fresh_example =
    races_fresh cache_platform 1000 (λ i j e. ap (λ (t : Text). elim t [ [] ↦ 0 | n ∷ s ↦ n ]) e)
      (omega arith) (omega arith) (some stored_widget) 1000 0 filled_new fills_new refl

slow_flight_restores_old_example :
    (s : Race) × RaceRun cache_platform 400000 (at_rest (some stored_widget) 1000 0) s
    × (s.pending ≡ 0)
    × (s.row ≡ some restocked)
    × (product_from (get_entry cache_platform (live s.now s.cell)) ≡ ok stored_widget)
slow_flight_restores_old_example =
    slow_flight_restores_old cache_platform 400000 stored_widget restocked 1000 0 payload
      payload_encodes (omega arith) (omega arith)
