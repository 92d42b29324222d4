-- ===== src/Http/Effects.antt =====
-- The product handlers of internal/transport/http/handler.go beside those of
-- internal/transport/grpc/handler.go.
use storefront.Common.{Option, Text, none, pos, refl, some, ℕ, ℤ, ◌≡◌}
use storefront.Domain.Pages.{Uuid}
use storefront.Domain.Products.{validate_product}
use storefront.Errors.{GoError, Result, err, ok}
use storefront.Grpc.{
  MoneyProto, Rpc, answered_by, create_product_rpc, delete_product_rpc, domain_money,
  get_product_rpc, product_proto, requested_product, update_product_rpc, when_valid, with_id,
}
use storefront.Http.{
  AddInput, Handler, UpdateInput, add, decoded, delete_handler, get_by_id, if_parsed, if_valid,
  lookup_error, product_response, removal_error, respond, server_error, update_handler,
}
use storefront.Service.{
  Services, State, create, delete_and_invalidate, find_product, update_and_invalidate,
}

answers_keep_state :
    {A B C : Type 0} (status : GoError → ℕ) (n : ℕ) (f : A → B) (g : A → C) (out : Result A × State)
    → (respond status n f out).1 ≡ (answered_by g out).1
answers_keep_state status n f g (ok a, s) = refl
answers_keep_state status n f g (err e, s) = refl

valid_same :
    {A B : Type 0} (v : Result (Unit {0})) (h : Handler A) (g : Rpc B) (s : State)
    → (h s).1 ≡ (g s).1
    → (if_valid v h s).1 ≡ (when_valid v g s).1
valid_same (ok u) h g s e = e
valid_same (err x) h g s e = refl

parsed_same :
    {A B : Type 0} (id : Option Uuid) (h : Uuid → Handler A) (g : Uuid → Rpc B) (s : State)
    → ((i : Uuid) → (h i s).1 ≡ (g i s).1)
    → (if_parsed id h s).1 ≡ (with_id id g s).1
parsed_same none h g s e = refl
parsed_same (some i) h g s e = e i

module _ (c : Services) (raw name : Text) (price : MoneyProto) (stock : ℤ) (s : State) where
  abbrev add_input : AddInput
  add_input = record { name = name; stock = stock; price = domain_money price }

  abbrev update_input : UpdateInput
  update_input = record { name = name; price = domain_money price }

  add_same : (add c (decoded add_input) s).1 ≡ (create_product_rpc c name price stock s).1
  unfolding add create_product_rpc
  add_same =
      let p = requested_product 0 name price stock in
      valid_same (validate_product p) _ _ s (
        answers_keep_state server_error 201 product_response (product_proto c.cache.texts)
          (create c p s))

  update_same :
      (update_handler c raw (decoded update_input) s).1 ≡ (update_product_rpc c raw name price s).1
  unfolding update_handler update_product_rpc
  update_same = parsed_same (c.cache.texts.parse raw) _ _ s (λ id.
      let p = requested_product id name price (pos 0) in
      valid_same (validate_product p) _ _ s (
        answers_keep_state lookup_error 200 product_response (product_proto c.cache.texts)
          (update_and_invalidate c p s)))

  delete_same : (delete_handler c raw s).1 ≡ (delete_product_rpc c raw s).1
  unfolding delete_handler delete_product_rpc
  delete_same =
      parsed_same (c.cache.texts.parse raw) _ _ s (λ id.
        answers_keep_state removal_error 200 (λ u. u) (λ u. u) (delete_and_invalidate c id s))

  get_same : (get_by_id c raw s).1 ≡ (get_product_rpc c raw s).1
  unfolding get_by_id get_product_rpc
  get_same = parsed_same (c.cache.texts.parse raw) _ _ s (λ id.
      answers_keep_state lookup_error 200 product_response (product_proto c.cache.texts)
        (find_product c id s))

  -- Creating, updating, deleting and reading a product, with the same id, name, price and stock in the
  -- request and whatever the calls of the store and the cache meet, leave the same state over HTTP as
  -- over gRPC.
  pub transports_same_effect :
      ((add c (decoded add_input) s).1 ≡ (create_product_rpc c name price stock s).1)
      × ((update_handler c raw (decoded update_input) s).1
          ≡ (update_product_rpc c raw name price s).1)
      × ((delete_handler c raw s).1 ≡ (delete_product_rpc c raw s).1)
      × ((get_by_id c raw s).1 ≡ (get_product_rpc c raw s).1)
  transports_same_effect = (add_same, update_same, delete_same, get_same)
