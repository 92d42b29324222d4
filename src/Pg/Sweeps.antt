-- ===== src/Pg/Sweeps.antt =====
-- What a purge of the janitor leaves of the keys: internal/pg/janitor.go.
use storefront.Common.{
  All, Bool, List, [], ap, false, filter, not, refl, true, ℕ, ◌++◌, ◌∙◌, ◌∷◌, ◌≡◌,
}
use storefront.Errors.{Result, err, ok}
use storefront.Pg.{Round, done, janitor, passed, purged}
use storefront.Store.Orders.{purge_idempotency_keys}
use storefront.Store.Schema.{IdempotencyRow}
use storefront.Store.Sql.Keys.{is_expired, purge_keys}
use storefront.Store.Tx.{World, autocommit, next_fault, pass}

-- a round that is not cut short
abbrev pub Goes : Round → Type 0
Goes done = ⊥
Goes (passed others cancelled) = cancelled ≡ false

-- what the keys should be
abbrev pub live_keys : World → List IdempotencyRow
live_keys w = filter (λ r. not (is_expired w.clock r)) w.db.keys

janitor-append :
    (ts : List Round) (t : Round) (w : World)
    → All Goes ts
    → janitor (ts ++ t ∷ []) w ≡ janitor (t ∷ []) (janitor ts w)
unfolding janitor
janitor-append [] t w h = refl
janitor-append (done ∷ ts) t w h = absurd h.0
janitor-append (passed others cancelled ∷ ts) t w h =
    go (λ v. janitor-append ts t v h.1) (purge_idempotency_keys (others w)) cancelled h.0
  where
    go :
        ((v : World) → janitor (ts ++ t ∷ []) v ≡ janitor (t ∷ []) (janitor ts v))
        → (out : Result ℕ × World) (c : Bool) → c ≡ false
        → purged out c (janitor (ts ++ t ∷ [])) ≡ janitor (t ∷ []) (purged out c (janitor ts))
    go rest (ok n, v) c e = rest v
    go rest (err x, v) true e = cc
    go rest (err x, v) false e = rest v

purge_passes :
    (w : World)
    → next_fault w.faults ≡ pass
    → (purge_idempotency_keys w).1.db ≡ record w.db { keys = live_keys w }
unfolding purge_idempotency_keys autocommit purge_keys
purge_passes w p = rw p refl

-- However often a purge has failed before: when the interval has passed once more and this purge's call
-- passes, exactly the keys that had not expired at its time are left, and the other tables are as they
-- were at that time.
pub janitor_sweeps :
    (rounds : List Round) (others : World → World) (w : World)
    → All Goes rounds
    → let before = others (janitor rounds w) in
      next_fault before.faults ≡ pass
      → (janitor (rounds ++ passed others false ∷ []) w).db
        ≡ record before.db { keys = live_keys before }
unfolding janitor
janitor_sweeps rounds others w goes calm =
    ap (λ (v : World). v.db) (janitor-append rounds (passed others false) w goes)
    ∙ last (purge_idempotency_keys (others (janitor rounds w)))
    ∙ purge_passes (others (janitor rounds w)) calm
  where
    last : (out : Result ℕ × World) → (purged out false (janitor [])).db ≡ out.1.db
    last (ok n, v) = refl
    last (err e, v) = refl
