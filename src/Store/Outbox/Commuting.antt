-- ===== src/Store/Outbox/Commuting.antt =====
-- Settled batches of different rows, one after the other: internal/store/outbox.go.
use storefront.Common.{
  Bool, List, [], ap, arith, false, filter-append, inl, inr, map, not, refl, subst, subst₂, sym,
  true, ℕ, ◌++◌, ◌+◌, ◌∙◌, ◌∷◌, ◌≡◌, ◌⊎◌,
}
use storefront.Store.Outbox.{Failures, failed_id}
use storefront.Store.Outbox.Batch.{left_rows}
use storefront.Store.Schema.{OutboxRow}
use storefront.Store.Sql.Outbox.{bump_rows, delete_rows, mem_id, retry_delay}

-- the relay changes no row with this id
abbrev pub Untouched : List ℕ → Failures → ℕ → Type 0
Untouched sent f id =
    (mem_id id sent ≡ false)
    × (mem_id id f.bump ≡ false)
    × (mem_id id (map failed_id f.dead) ≡ false)

delete_rows-append :
    (ids : List ℕ) (xs ys : List OutboxRow)
    → delete_rows ids (xs ++ ys) ≡ delete_rows ids xs ++ delete_rows ids ys
unfolding delete_rows
delete_rows-append ids xs ys = filter-append (λ r. not (mem_id r.id ids)) xs ys

bump_rows-append :
    (now : ℕ) (ids : List ℕ) (xs ys : List OutboxRow)
    → bump_rows now ids (xs ++ ys) ≡ bump_rows now ids xs ++ bump_rows now ids ys
unfolding bump_rows
bump_rows-append now ids [] ys = refl
bump_rows-append now ids (x ∷ xs) ys = ground (arith, bump_rows-append now ids xs ys)

module _ (now : ℕ) (sent : List ℕ) (f : Failures) where
  left_rows-append :
      (xs ys : List OutboxRow)
      → left_rows now sent f (xs ++ ys) ≡ left_rows now sent f xs ++ left_rows now sent f ys
  unfolding left_rows
  left_rows-append xs ys =
      ap (λ t. delete_rows (map failed_id f.dead) (bump_rows now f.bump t))
        (delete_rows-append sent xs ys)
      ∙ ap (delete_rows (map failed_id f.dead))
          (bump_rows-append now f.bump (delete_rows sent xs) (delete_rows sent ys))
      ∙ delete_rows-append (map failed_id f.dead) (bump_rows now f.bump (delete_rows sent xs))
          (bump_rows now f.bump (delete_rows sent ys))

  left_rows-nil : left_rows now sent f [] ≡ []
  unfolding left_rows delete_rows bump_rows
  left_rows-nil = refl

  -- an untouched row stays
  left_rows-Untouched :
      (r : OutboxRow) → Untouched sent f r.id → left_rows now sent f (r ∷ []) ≡ r ∷ []
  unfolding left_rows delete_rows bump_rows
  left_rows-Untouched r (s, b, d) = rw s (rw b (rw d refl))

  abbrev bumped : OutboxRow → OutboxRow
  bumped r = record r { attempts = r.attempts + 1; next_attempt_at = now + retry_delay r.attempts }

  -- a row goes, or stays with its id
  abbrev OneOrNone : OutboxRow → Type 0
  OneOrNone r =
      (left_rows now sent f (r ∷ []) ≡ [])
      ⊎ ((r' : OutboxRow) × (r'.id ≡ r.id) × (left_rows now sent f (r ∷ []) ≡ r' ∷ []))

  left_rows-OneOrNone : (r : OutboxRow) → OneOrNone r
  unfolding left_rows delete_rows bump_rows
  left_rows-OneOrNone r =
      go (mem_id r.id sent) (mem_id r.id f.bump) (mem_id r.id (map failed_id f.dead)) refl refl refl
    where
      go :
          (a b c : Bool)
          → mem_id r.id sent ≡ a
          → mem_id r.id f.bump ≡ b
          → mem_id r.id (map failed_id f.dead) ≡ c
          → OneOrNone r
      go true b c s u d = inl (rw s refl)
      go false true true s u d = inl (rw s (rw u (rw d refl)))
      go false true false s u d = inr (bumped r, refl, rw s (rw u (rw d refl)))
      go false false true s u d = inl (rw s (rw u (rw d refl)))
      go false false false s u d = inr (r, refl, rw s (rw u (rw d refl)))

-- two relays that change different rows
module _ (now now' : ℕ) (sent sent' : List ℕ) (f f' : Failures) where
  abbrev first : List OutboxRow → List OutboxRow
  first rows = left_rows now sent f rows

  abbrev second : List OutboxRow → List OutboxRow
  second rows = left_rows now' sent' f' rows

  row_commutes :
      (r : OutboxRow) → Untouched sent f r.id → second (first (r ∷ [])) ≡ first (second (r ∷ []))
  row_commutes r u = elim (left_rows-OneOrNone now' sent' f' r) [
    | inl gone ↦
        ap second (left_rows-Untouched now sent f r u)
        ∙ gone
        ∙ sym (ap first gone ∙ left_rows-nil now sent f)
    | inr (r', same_id, stays) ↦
        ap second (left_rows-Untouched now sent f r u)
        ∙ stays
        ∙ sym (
            ap first stays
            ∙ left_rows-Untouched now sent f r' (subst (Untouched sent f) (sym same_id) u))
  ]

pub rows_commute :
    (now now' : ℕ) (sent sent' : List ℕ) (f f' : Failures)
    → ((id : ℕ) → Untouched sent f id ⊎ Untouched sent' f' id)
    → (rows : List OutboxRow)
    → left_rows now' sent' f' (left_rows now sent f rows)
      ≡ left_rows now sent f (left_rows now' sent' f' rows)
rows_commute now now' sent sent' f f' apart [] =
    ap (left_rows now' sent' f') (left_rows-nil now sent f)
    ∙ left_rows-nil now' sent' f'
    ∙ sym (ap (left_rows now sent f) (left_rows-nil now' sent' f') ∙ left_rows-nil now sent f)
rows_commute now now' sent sent' f f' apart (r ∷ rows) =
    split now now' sent sent' f f'
    ∙ subst₂
        (λ x y.
          (left_rows now' sent' f' (left_rows now sent f (r ∷ []))
            ++ left_rows now' sent' f' (left_rows now sent f rows))
          ≡ x ++ y)
        (one (apart r.id)) (rows_commute now now' sent sent' f f' apart rows) refl
    ∙ sym (split now' now sent' sent f' f)
  where
    split :
        (n n' : ℕ) (s s' : List ℕ) (g g' : Failures)
        → left_rows n' s' g' (left_rows n s g (r ∷ rows))
          ≡ left_rows n' s' g' (left_rows n s g (r ∷ []))
            ++ left_rows n' s' g' (left_rows n s g rows)
    split n n' s s' g g' =
        ap (left_rows n' s' g') (left_rows-append n s g (r ∷ []) rows)
        ∙ left_rows-append n' s' g' (left_rows n s g (r ∷ [])) (left_rows n s g rows)

    one :
        Untouched sent f r.id ⊎ Untouched sent' f' r.id
        → left_rows now' sent' f' (left_rows now sent f (r ∷ []))
          ≡ left_rows now sent f (left_rows now' sent' f' (r ∷ []))
    one (inl u) = row_commutes now now' sent sent' f f' r u
    one (inr u) = sym (row_commutes now' now sent' sent f' f r u)
