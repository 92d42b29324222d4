-- ===== src/Service/Races/Fresh.antt =====
-- Runs of readers and writers that race, from an empty cache: internal/service/service.go.
use storefront.Common.{Option, none, some, ℕ, ◌≡◌, ◌≤◌}
use storefront.Cache.{CachePlatform, live}
use storefront.Domain.Products.{Product}
use storefront.Service.Races.{
  Race, RaceRun, RaceStep, at_rest, begins, commits, ends, fill_ttl, fills, invalidates, loads,
  stay, then_step, waits,
}
use storefront.Service.Races.Kept.{Kept}
use storefront.Service.Races.Steps.{
  keeps_begin, keeps_commit, keeps_end, keeps_fill, keeps_invalidate, keeps_load, keeps_wait,
}
use storefront.Service.Reads.{FreshCell}

module _ (c : CachePlatform) (load_timeout : ℕ)
    (random : (i j : ℕ) → c.rand_text i ≡ c.rand_text j → i ≡ j) (outlived : load_timeout ≤ c.ttl)
    (missing_outlived : load_timeout ≤ c.neg_ttl) where
  fill_outlives : (row : Option Product) → load_timeout ≤ fill_ttl c row
  fill_outlives none = missing_outlived
  fill_outlives (some p) = outlived

  RaceStep-Kept :
      (r s : Race) → RaceStep c load_timeout r s → Kept c load_timeout r → Kept c load_timeout s
  RaceStep-Kept _ _ (commits r row) k = keeps_commit c load_timeout r row k
  RaceStep-Kept _ _ (invalidates r n e) k = keeps_invalidate c load_timeout r n random outlived k
  RaceStep-Kept _ _ (waits r) k = keeps_wait c load_timeout r k
  RaceStep-Kept _ _ (begins r miss) k = keeps_begin c load_timeout r miss k
  RaceStep-Kept _ _ (loads r pre post f e) k = keeps_load c load_timeout r pre post f e k
  RaceStep-Kept _ _ (fills r pre post f row value e l v t) k =
      keeps_fill c load_timeout r f row value l v t pre post e (fill_outlives row) k
  RaceStep-Kept _ _ (ends r pre post f e) k = keeps_end c load_timeout r pre post f e k

  RaceRun-Kept :
      (r s : Race) → RaceRun c load_timeout r s → Kept c load_timeout r → Kept c load_timeout s
  RaceRun-Kept _ _ (stay r) k = k
  RaceRun-Kept _ _ (then_step r m s before step) k =
      RaceStep-Kept m s step (RaceRun-Kept r m before k)

  at_rest-Kept :
      (row : Option Product) (now drawn : ℕ) → Kept c load_timeout (at_rest row now drawn)
  unfolding live
  at_rest-Kept row now drawn = record {
    known = λ bytes at e. absurd cc;
    good = tt;
    fresh = λ p hit. absurd cc;
  }

  -- When random texts differ and a flight ends within both TTLs: however readers and writers of a
  -- product interleave from an empty cache, as soon as each writer that has committed has also
  -- invalidated the key, what a Get finds in the cache is the row of the store, never an older one.
  pub races_fresh :
      (row : Option Product) (now drawn : ℕ) (s : Race)
      → RaceRun c load_timeout (at_rest row now drawn) s
      → s.pending ≡ 0
      → FreshCell c s.row s.now s.cell
  races_fresh row now drawn s reached p =
      (RaceRun-Kept (at_rest row now drawn) s reached (at_rest-Kept row now drawn)).fresh p
