-- ===== src/Http/Parity.antt =====
-- CreateOrder of internal/transport/http/handler.go beside the one of internal/transport/grpc/handler.go.
use storefront.Common.{
  Bool, Option, Text, [], false, if◌then◌else◌, none, refl, some, true, ℕ, ℤ, ◌∷◌, ◌≡◌,
}
use storefront.Domain.Orders.{Order}
use storefront.Domain.Pages.{Uuid, UuidText}
use storefront.Domain.Products.{valid_purchase_quantity}
use storefront.Errors.{
  GoError, Result, canceled, deadline_exceeded, err, idempotency_mismatch, insufficient_stock, is,
  not_found, ok, product_in_use, unavailable,
}
use storefront.Grpc.{
  Code, OrderProto, Reply, answered_by, as_canceled, as_deadline_exceeded, as_failed_precondition,
  as_internal, as_invalid_argument, as_not_found, as_unavailable, create_order_rpc, order_proto,
  refuses, replies_with, to_status, with_id, with_key,
}
use storefront.Http.{
  Answer, Created, create_order_handler, created_response, decoded, header_key, if_key, if_parsed,
  order_error, respond, responds, responds_error, server_error,
}
use storefront.Service.{Services, State, create_order_for}

-- the statuses of HTTP that stand for a code of gRPC; HTTP has none of its own for a caller that went
-- away or a deadline that passed
pub data Corresponds : ℕ → Code → Type 0 where
  bad_input : Corresponds 400 as_invalid_argument
  unprocessable : Corresponds 422 as_invalid_argument
  absence : Corresponds 404 as_not_found
  conflict : Corresponds 409 as_failed_precondition
  outage : Corresponds 503 as_unavailable
  failure : Corresponds 500 as_internal
  gone : (n : ℕ) → Corresponds n as_canceled
  late : (n : ℕ) → Corresponds n as_deadline_exceeded

-- the two answers to one order request
pub data SameOrder (u : UuidText) : Answer Created → Reply (OrderProto × Bool) → Type 0 where
  ordered :
      (r : Order × Bool)
      → SameOrder u (responds 201 (created_response u r)) (replies_with (order_proto u r.0, r.1))
  refused :
      (n : ℕ) (code : Code) → Corresponds n code → SameOrder u (responds_error n) (refuses code)
  misplaced :
      (e : GoError)
      → is product_in_use e ≡ true
      → SameOrder u (responds_error (order_error e)) (refuses (to_status e))

order_error-Corresponds :
    (e : GoError) → is product_in_use e ≡ false → Corresponds (order_error e) (to_status e)
unfolding order_error to_status server_error
order_error-Corresponds e not_used =
    go (is canceled e) (is deadline_exceeded e) (is not_found e) (is insufficient_stock e)
      (is idempotency_mismatch e) (is product_in_use e) (is unavailable e) not_used
  where
    go :
        (gone_ late_ missing short mismatch used down : Bool)
        → used ≡ false
        → Corresponds
            (if missing
              then 404
              else if short
              then 409
              else if mismatch
              then 422
              else if down
              then 503
              else 500)
            (if gone_
              then as_canceled
              else if late_
              then as_deadline_exceeded
              else if missing
              then as_not_found
              else if short
              then as_failed_precondition
              else if mismatch
              then as_invalid_argument
              else if used
              then as_failed_precondition
              else if down
              then as_unavailable
              else as_internal)
    go true l m i x v d h = gone _
    go false true m i x v d h = late _
    go false false true i x v d h = absence
    go false false false true x v d h = conflict
    go false false false false true v d h = unprocessable
    go false false false false false true d h = cc
    go false false false false false false true h = outage
    go false false false false false false false h = failure

abbrev pub Agree : UuidText → Answer Created × State → Reply (OrderProto × Bool) × State → Type 0
Agree u h g = (h.1 ≡ g.1) × SameOrder u h.0 g.0

served-Agree :
    (u : UuidText) (out : Result (Order × Bool) × State)
    → Agree u
        (respond order_error 201 (created_response u) out)
        (answered_by (λ (r : Order × Bool). (order_proto u r.0, r.1)) out)
served-Agree u (ok r, s) = (refl, ordered r)
served-Agree u (err e, s) = go (is product_in_use e) refl
  where
    go :
        (b : Bool)
        → is product_in_use e ≡ b
        → (s ≡ s) × SameOrder u (responds_error (order_error e)) (refuses (to_status e))
    go true h = (refl, misplaced e h)
    go false h = (refl, refused (order_error e) (to_status e) (order_error-Corresponds e h))

-- For the same caller, product, quantity and key, CreateOrder over HTTP and over gRPC leave the same
-- state, and both answer the same order with the same replay mark or both refuse, with a status and a
-- code that stand for the same failure; a call that was canceled or timed out may have any status, and
-- so may the error ErrProductInUse, which is none of an order's.
pub create_order_parity :
    (c : Services) (caller : Option Uuid) (key raw : Text) (qty : ℤ) (s : State)
    → Agree c.cache.texts
        (create_order_handler c caller key
          (decoded (record { product_id = raw; quantity = qty }))
          s)
        (create_order_rpc c caller (key ∷ []) raw qty s)
unfolding create_order_handler create_order_rpc
create_order_parity c none key raw qty s = (refl, refused 500 as_internal failure)
create_order_parity c (some user) key raw qty s =
    go (c.cache.texts.parse raw) (header_key key) (valid_purchase_quantity qty)
  where
    f : Order × Bool → OrderProto × Bool
    f r = (order_proto c.cache.texts r.0, r.1)

    go :
        (id : Option Uuid) (k : Option Text) (b : Bool)
        → Agree c.cache.texts
            (if_parsed id
              (λ product s.
                if_key k
                  (λ k s.
                    if b
                    then respond order_error 201
                        (created_response c.cache.texts)
                        (create_order_for c user product qty k s)
                    else (responds_error 422, s))
                  s)
              s)
            (with_id id
              (λ product s.
                with_key k
                  (λ k s.
                    if b
                    then answered_by f (create_order_for c user product qty k s)
                    else (refuses as_invalid_argument, s))
                  s)
              s)
    go none k b = (refl, refused 400 as_invalid_argument bad_input)
    go (some id) none b = (refl, refused 400 as_invalid_argument bad_input)
    go (some id) (some k) false = (refl, refused 422 as_invalid_argument unprocessable)
    go (some id) (some k) true = served-Agree c.cache.texts (create_order_for c user id qty k s)
