-- ===== src/Domain/Laws.antt =====
-- What validation, page sizes and cursors guarantee.
use storefront.Common.{
  Bool, [], arith, codes, false, pos, refl, subst, sym, text_eq, text_eq_iff, text_eq_sound, true,
  ℤ, ◌<ℤ◌, ◌||◌, ◌↔◌, ◌≡◌, ◌≢◌, ◌≤ℤ◌,
}
use storefront.Domain.Money.{Currency, valid_currency}
use storefront.Domain.Pages.{normalize_page_size}
use storefront.Domain.Products.{Product, validate_product}
use storefront.Errors.{ok}

-- The currencies of the products.currency CHECK constraint.
pub data IsCurrency : Currency → Type 0 where
  pln : IsCurrency (codes "PLN")
  eur : IsCurrency (codes "EUR")
  usd : IsCurrency (codes "USD")
  gbp : IsCurrency (codes "GBP")
  chf : IsCurrency (codes "CHF")

pub record IsSellable (p : Product) : Type 0 where
  pub named : p.name ≢ []
  pub priced : pos 0 <ℤ p.price.minor_amount
  pub in_currency : IsCurrency p.price.currency
  pub stocked : pos 0 ≤ℤ p.stock

valid_currency_iff : (c : Currency) → (valid_currency c ≡ true) ↔ IsCurrency c
unfolding valid_currency text_eq
valid_currency_iff c = (
  λ h.
      by_text (text_eq c (codes "PLN")) (text_eq c (codes "EUR")) (text_eq c (codes "USD"))
        (text_eq c (codes "GBP")) (text_eq c (codes "CHF")) refl refl refl refl refl h,
  λ k. from c k,
)
  where
    is_one : (t : Currency) → IsCurrency t → text_eq c t ≡ true → IsCurrency c
    is_one t k e = subst IsCurrency (sym (text_eq_sound c t e)) k

    by_text :
        (p e u g f : Bool)
        → text_eq c (codes "PLN") ≡ p
        → text_eq c (codes "EUR") ≡ e
        → text_eq c (codes "USD") ≡ u
        → text_eq c (codes "GBP") ≡ g
        → text_eq c (codes "CHF") ≡ f
        → p || e || u || g || f ≡ true
        → IsCurrency c
    by_text true e u g f hp he hu hg hf h = is_one (codes "PLN") pln hp
    by_text false true u g f hp he hu hg hf h = is_one (codes "EUR") eur he
    by_text false false true g f hp he hu hg hf h = is_one (codes "USD") usd hu
    by_text false false false true f hp he hu hg hf h = is_one (codes "GBP") gbp hg
    by_text false false false false true hp he hu hg hf h = is_one (codes "CHF") chf hf
    by_text false false false false false hp he hu hg hf h = cc

    from : (c : Currency) → IsCurrency c → valid_currency c ≡ true
    from _ pln = refl
    from _ eur = refl
    from _ usd = refl
    from _ gbp = refl
    from _ chf = refl

-- A product passes validation exactly when it has a name, a positive price in one of the five
-- currencies PLN, EUR, USD, GBP and CHF and a stock that is not negative.
pub validate_product_iff : (p : Product) → (validate_product p ≡ ok tt) ↔ IsSellable p
unfolding validate_product
validate_product_iff p = (
  λ h. ground (arith, text_eq_iff p.name [], (valid_currency_iff p.price.currency).0),
  λ s.
      ground
        (arith, text_eq_iff p.name [], s, (valid_currency_iff p.price.currency).1 s.in_currency),
)

-- A page size is never below 1 nor above 200, a requested size in that range is kept, and every size
-- that is not positive becomes 50.
pub normalize_page_size_bounds :
    (n : ℤ)
    → (pos 1 ≤ℤ normalize_page_size n)
      × (normalize_page_size n ≤ℤ pos 200)
      × (pos 1 ≤ℤ n → n ≤ℤ pos 200 → normalize_page_size n ≡ n)
      × (n ≤ℤ pos 0 → normalize_page_size n ≡ pos 50)
unfolding normalize_page_size
normalize_page_size_bounds n = (ground arith, ground arith, λ a b. ground arith, λ a. ground arith)
