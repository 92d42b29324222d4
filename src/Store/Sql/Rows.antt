-- ===== src/Store/Sql/Rows.antt =====
-- Looking up a row after the tables have changed.
use storefront.Common.{
  All, Bool, Bool-cases, List, Option, Text, [], arith, false, filter, find?, if◌then◌else◌, inl,
  inr, map_if, none, not, refl, some, text_eq, text_eq_iff, text_eq_refl, true, ◌&&◌, ◌==◌, ◌∷◌,
  ◌≡◌,
}
use storefront.Domain.Orders.{Order}
use storefront.Domain.Pages.{Uuid}
use storefront.Domain.Products.{Product}
use storefront.Store.Schema.{IdempotencyRow}
use storefront.Store.Sql.Keys.{is_key, replace_key, select_key}
use storefront.Store.Sql.Orders.{select_order}
use storefront.Store.Sql.Products.{has_id, replace_product, select_product}

abbrev pub mapped_to {ℓ} : {A : Type ℓ} → A → Option A → Option A
mapped_to a none = none
mapped_to a (some b) = some a

pub select-replace :
    (id j : Uuid) (p : Product) (rows : List Product)
    → p.id ≡ id
    → select_product j (replace_product id p rows)
      ≡ (if id == j then mapped_to p (select_product j rows) else select_product j rows)
unfolding select_product replace_product
select-replace id j p [] e = ground arith
select-replace id j p (x ∷ rows) e = ground (arith, select-replace id j p rows e)

pub select_id :
    (id : Uuid) (p : Product) (rows : List Product) → select_product id rows ≡ some p → p.id ≡ id
unfolding select_product
select_id id p [] h = cc
select_id id p (x ∷ rows) h = ground (arith, select_id id p rows)

pub select-filter_ne :
    (id j : Uuid) (rows : List Product)
    → select_product j (filter (λ r. not (has_id id r)) rows)
      ≡ (if id == j then none else select_product j rows)
unfolding select_product
select-filter_ne id j [] = ground arith
select-filter_ne id j (x ∷ rows) = ground (arith, select-filter_ne id j rows)

pub select_order_id :
    (id : Uuid) (o : Order) (rows : List Order) → select_order id rows ≡ some o → o.id ≡ id
unfolding select_order
select_order_id id o [] h = cc
select_order_id id o (x ∷ rows) h = ground (arith, select_order_id id o rows)

-- the keys of two rows are compared as whole texts
pub select-replace_key :
    (r : IdempotencyRow) (rows : List IdempotencyRow)
    → select_key r.user_id r.key (replace_key r rows)
      ≡ mapped_to r (select_key r.user_id r.key rows)
unfolding select_key replace_key
select-replace_key r [] = refl
select-replace_key r (x ∷ rows) = ground (arith, select-replace_key r rows, text_eq_refl r.key)

pub select-replace_key_ne :
    (user : Uuid) (key : Text) (r : IdempotencyRow) (rows : List IdempotencyRow)
    → is_key user key r ≡ false
    → select_key user key (replace_key r rows) ≡ select_key user key rows
unfolding select_key replace_key
select-replace_key_ne user key r [] h = refl
select-replace_key_ne user key r (x ∷ rows) h = ground (
  arith,
  select-replace_key_ne user key r rows h,
  text_eq_iff x.key r.key,
  text_eq_iff x.key key,
  text_eq_iff r.key key,
)

module _ (user : Uuid) (key : Text) (order_id : Uuid) where
  abbrev pub link_row : IdempotencyRow → IdempotencyRow
  link_row r = record r { order_id = some order_id }

  abbrev pub link_found : Option IdempotencyRow → Option IdempotencyRow
  link_found none = none
  link_found (some r) = some (link_row r)

  pub select-link :
      (rows : List IdempotencyRow)
      → select_key user key (map_if (is_key user key) link_row rows)
        ≡ link_found (select_key user key rows)
  unfolding select_key
  select-link [] = refl
  select-link (x ∷ rows) = ground (arith, select-link rows)

  pub select-link_ne :
      (user' : Uuid) (key' : Text) (rows : List IdempotencyRow)
      → (user == user' && text_eq key key') ≡ false
      → select_key user' key' (map_if (is_key user key) link_row rows) ≡ select_key user' key' rows
  unfolding select_key
  select-link_ne user' key' [] h = refl
  select-link_ne user' key' (x ∷ rows) h = ground (
    arith,
    select-link_ne user' key' rows h,
    text_eq_iff x.key key,
    text_eq_iff x.key key',
    text_eq_iff key key',
  )

pub map_if-none {ℓ} :
    {A : Type ℓ} (p : A → Bool) (f : A → A) (rows : List A)
    → find? p rows ≡ none
    → map_if p f rows ≡ rows
map_if-none p f [] h = refl
map_if-none p f (x ∷ rows) h = ground (arith, map_if-none p f rows)

pub All-map_if {ℓ κ μ} :
    {A : Type ℓ} (P : A → Type κ) (Q : A → Type μ) (p : A → Bool) (f : A → A) (rows : List A)
    → ((a : A) → P a → p a ≡ true → Q (f a))
    → ((a : A) → P a → p a ≡ false → Q a)
    → All P rows
    → All Q (map_if p f rows)
All-map_if P Q p f [] hit miss h = tt
All-map_if P Q p f (x ∷ rows) hit miss h = (
  elim (Bool-cases (p x)) [ inl e ↦ rw e (hit x h.0 e) | inr e ↦ rw e (miss x h.0 e) ],
  All-map_if P Q p f rows hit miss h.1,
)
