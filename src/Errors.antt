-- ===== src/Errors.antt =====
-- Go errors as the program builds and tests them: sentinel values, errors of pgx and of the network,
-- and the wrapping of fmt.Errorf. `is` is errors.Is, the `as_` functions are errors.AsType.
use storefront.Common.{
  Bool, Option, Text, ap, arith, false, inl, inr, none, refl, some, true, ℕ, ◌==◌, ◌||◌, ◌≡◌, ◌⊎◌,
}

-- The sentinels of internal/domain, internal/event and internal/auth, and those of context and pgx.
pub data Sentinel : Type 0 where
  not_found unavailable insufficient_stock product_in_use idempotency_mismatch : Sentinel
  undeliverable invalid_token : Sentinel
  canceled deadline_exceeded no_rows : Sentinel

pub data GoError : Type 0 where
  sentinel : Sentinel → GoError
  -- *pgconn.PgError, by its Code
  pg_error : Text → GoError
  -- any net.Error
  net_error : GoError
  -- errors.New, or fmt.Errorf with no %w
  message : Text → GoError
  -- fmt.Errorf("text: %w", err) and fmt.Errorf("%w: %w", a, b)
  wrap : Text → GoError → GoError
  wrap_both : GoError → GoError → GoError

abbrev rank : Sentinel → ℕ
rank not_found = 0
rank unavailable = 1
rank insufficient_stock = 2
rank product_in_use = 3
rank idempotency_mismatch = 4
rank undeliverable = 5
rank invalid_token = 6
rank canceled = 7
rank deadline_exceeded = 8
rank no_rows = 9

abbrev pub same : Sentinel → Sentinel → Bool
same s t = rank s == rank t

unfoldable pub is : Sentinel → GoError → Bool
is s (sentinel t) = same s t
is s (pg_error c) = false
is s net_error = false
is s (message t) = false
is s (wrap t e) = is s e
is s (wrap_both d e) = is s d || is s e

abbrev first_some : Option Text → Option Text → Option Text
first_some none o = o
first_some (some t) o = some t

-- errors.AsType[*pgconn.PgError]: the code of the first one in the tree.
unfoldable pub as_pg_error : GoError → Option Text
as_pg_error (sentinel s) = none
as_pg_error (pg_error c) = some c
as_pg_error net_error = none
as_pg_error (message t) = none
as_pg_error (wrap t e) = as_pg_error e
as_pg_error (wrap_both d e) = first_some (as_pg_error d) (as_pg_error e)

-- errors.AsType[net.Error]; context.DeadlineExceeded has the methods of a net.Error.
unfoldable pub as_net_error : GoError → Bool
as_net_error (sentinel s) = same s deadline_exceeded
as_net_error (pg_error c) = false
as_net_error net_error = true
as_net_error (message t) = false
as_net_error (wrap t e) = as_net_error e
as_net_error (wrap_both d e) = as_net_error d || as_net_error e

pub same_sound : (s t : Sentinel) → same s t ≡ true → s ≡ t
same_sound s t h = ground arith

pub data Result {ℓ} (A : Type ℓ) : Type ℓ where
  ok : A → Result A
  err : GoError → Result A

infixl 5 ◌>>=◌ ◌>>◌
abbrev pub ◌>>=◌ {ℓ κ} : {A : Type ℓ} {B : Type κ} → Result A → (A → Result B) → Result B
err x >>= k = err x
ok a >>= k = k a

abbrev pub ◌>>◌ {ℓ} : {B : Type ℓ} → Result (Unit {0}) → Result B → Result B
first >> rest = first >>= λ done. rest

pub Result-cases {ℓ} :
    {A : Type ℓ} (r : Result A) → ((a : A) × (r ≡ ok a)) ⊎ ((e : GoError) × (r ≡ err e))
Result-cases (ok a) = inl (a, refl)
Result-cases (err e) = inr (e, refl)

abbrev or_else {ℓ} : {A : Type ℓ} → A → Result A → A
or_else d (ok a) = a
or_else d (err e) = d

pub ok_injective {ℓ} : {A : Type ℓ} (a b : A) → ok a ≡ ok b → a ≡ b
ok_injective a b e = ap (or_else a) e
