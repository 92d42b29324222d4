-- ===== src/Grpc/Requests.antt =====
-- CreateOrder of internal/transport/grpc/handler.go: which requests reach the service.
use storefront.Common.{
  Bool, List, Option, Text, [], ap, arith, false, if◌then◌else◌, inl, inr, length, ltb, none, pos,
  refl, some, subst, text_eq, text_eq_complete, true, ℤ, ◌∙◌, ◌∷◌, ◌≡◌, ◌≢◌, ◌≤ℤ◌, ◌≤◌, ◌⊎◌,
}
use storefront.Domain.Orders.{Order}
use storefront.Domain.Pages.{Uuid}
use storefront.Domain.Products.{valid_purchase_quantity}
use storefront.Grpc.{
  Code, OrderProto, Reply, answered_by, as_internal, as_invalid_argument, create_order_rpc,
  order_proto, refuses, valid_key, with_id, with_key,
}
use storefront.Service.{Services, State, create_order_for}

-- what holds of a request that has reached the service, and what came of it
pub record Admitted (c : Services) (caller : Option Uuid) (keys : List Text) (raw : Text) (qty : ℤ)
    (s : State) (out : Reply (OrderProto × Bool) × State) : Type 0 where
  pub user : Uuid
  pub product : Uuid
  pub key : Text
  pub called : caller ≡ some user
  pub parsed : c.cache.texts.parse raw ≡ some product
  pub first_key : (more : List Text) × (keys ≡ key ∷ more)
  pub key_size : (key ≢ []) × (length key ≤ 255)
  pub in_range : (pos 1 ≤ℤ qty) × (qty ≤ℤ pos 10000)
  pub served :
      out
      ≡ answered_by
          (λ (r : Order × Bool). (order_proto c.cache.texts r.0, r.1))
          (create_order_for c user product qty key s)

-- a refusal that changes nothing
abbrev pub Refused : State → Reply (OrderProto × Bool) × State → Type 0
Refused s out = (code : Code) × (out ≡ (refuses code, s))

valid_key-bounds :
    (keys : List Text) (key : Text)
    → valid_key keys ≡ some key
    → ((more : List Text) × (keys ≡ key ∷ more)) × ((key ≢ []) × (length key ≤ 255))
valid_key-bounds [] key h = cc
valid_key-bounds (k ∷ more) key h = go (text_eq k []) (ltb 255 (length k)) refl refl h
  where
    go :
        (a b : Bool)
        → text_eq k [] ≡ a
        → ltb 255 (length k) ≡ b
        → (if a then none else if b then none else some k) ≡ some key
        → ((more' : List Text) × (k ∷ more ≡ key ∷ more')) × ((key ≢ []) × (length key ≤ 255))
    go true b e l h = cc
    go false true e l h = cc
    go false false e l h =
        let is_key : k ≡ key = ap (λ (o : Option Text). elim o [ none ↦ k | some x ↦ x ]) h in
        (
          (more, ap (λ x. x ∷ more) is_key),
          (
            λ n. cc (e, text_eq_complete k [] (is_key ∙ n)),
            subst (λ (x : Text). length x ≤ 255) is_key (ground arith),
          ),
        )

quantity_bounds :
    (qty : ℤ) → valid_purchase_quantity qty ≡ true → (pos 1 ≤ℤ qty) × (qty ≤ℤ pos 10000)
unfolding valid_purchase_quantity
quantity_bounds qty h = (ground arith, ground arith)

-- A CreateOrder request without a caller, a product id, a key of 1 to 255 bytes or a quantity of 1 to
-- 10000 is refused and changes nothing; every other one is answered by the service's CreateOrder with
-- exactly these values.
pub create_order_rpc_cases :
    (c : Services) (caller : Option Uuid) (keys : List Text) (raw : Text) (qty : ℤ) (s : State)
    → let out = create_order_rpc c caller keys raw qty s in
      Refused s out ⊎ Admitted c caller keys raw qty s out
unfolding create_order_rpc
create_order_rpc_cases c none keys raw qty s = inl (as_internal, refl)
create_order_rpc_cases c (some user) keys raw qty s =
    go (c.cache.texts.parse raw) (valid_key keys) (valid_purchase_quantity qty) refl refl refl
  where
    f : Order × Bool → OrderProto × Bool
    f r = (order_proto c.cache.texts r.0, r.1)

    request : Option Uuid → Option Text → Bool → Reply (OrderProto × Bool) × State
    request id k b =
        with_id id
          (λ product s.
            with_key k
              (λ key s.
                if b
                then answered_by f (create_order_for c user product qty key s)
                else (refuses as_invalid_argument, s))
              s)
          s

    go :
        (id : Option Uuid) (k : Option Text) (b : Bool)
        → c.cache.texts.parse raw ≡ id
        → valid_key keys ≡ k
        → valid_purchase_quantity qty ≡ b
        → Refused s (request id k b) ⊎ Admitted c (some user) keys raw qty s (request id k b)
    go none k b e h v = inl (as_invalid_argument, refl)
    go (some product) none b e h v = inl (as_invalid_argument, refl)
    go (some product) (some key) false e h v = inl (as_invalid_argument, refl)
    go (some product) (some key) true e h v =
        let bounds = valid_key-bounds keys key h in
        inr (record {
          user = user;
          product = product;
          key = key;
          called = refl;
          parsed = e;
          first_key = bounds.0;
          key_size = bounds.1;
          in_range = quantity_bounds qty v;
          served = refl;
        })
