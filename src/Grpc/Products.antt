-- ===== src/Grpc/Products.antt =====
-- GetProduct of internal/transport/grpc/handler.go, through the service, the cache and the store.
use storefront.Common.{Option, Text, [], ap, none, refl, some, subst, sym, ◌∙◌, ◌≡◌}
use storefront.Domain.Pages.{Uuid, UuidText}
use storefront.Domain.Products.{Product}
use storefront.Errors.{Result, err, is, ok}
use storefront.Grpc.{
  ProductProto, Reply, answered_by, as_not_found, get_product_rpc, product_proto, refuses,
  replies_with, to_status, with_id,
}
use storefront.Service.{Services, State, find_product}
use storefront.Service.Found.{find_product-Read}
use storefront.Service.Reads.{Foreign, Fresh, answer, row_of}
use storefront.Store.Products.{find_by_id}
use storefront.Store.Sql.Products.{get_product, select_product}
use storefront.Store.Tx.{World, exec, next_fault}

abbrev reply_to : UuidText → Result Product → Reply ProductProto
reply_to u (ok p) = replies_with (product_proto u p)
reply_to u (err e) = refuses (to_status e)

-- what a client is told of a row
abbrev pub told : UuidText → Option Product → Reply ProductProto
told u none = refuses as_not_found
told u (some p) = replies_with (product_proto u p)

answer-told : (u : UuidText) (row : Option Product) → reply_to u (answer row) ≡ told u row
unfolding to_status is
answer-told u none = refl
answer-told u (some p) = refl

find_by_id-told :
    (u : UuidText) (id : Uuid) (w : World)
    → w.faults ≡ []
    → reply_to u (find_by_id id w).0 ≡ told u (row_of id w.db)
unfolding find_by_id exec get_product is to_status
find_by_id-told u id w calm = go (select_product id w.db.products) refl
  where
    go :
        (row : Option Product)
        → select_product id w.db.products ≡ row
        → reply_to u (find_by_id id w).0 ≡ told u row
    go none e = rw calm (rw e refl)
    go (some p) e = rw calm (rw e refl)

answered_result :
    (u : UuidText) (out : Result Product × State)
    → (answered_by (product_proto u) out).0 ≡ reply_to u out.0
answered_result u (ok p, s) = refl
answered_result u (err e, s) = refl

-- When no call of the database fails, and whatever calls of the cache do: GetProduct with the id of a
-- product whose cached value, if there is one, is its row answers that row, and NotFound without one.
pub get_product_rpc-told :
    (c : Services) (raw : Text) (id : Uuid) (s : State)
    → c.cache.texts.parse raw ≡ some id
    → s.world.faults ≡ []
    → Fresh c id s
    → (get_product_rpc c raw s).0 ≡ told c.cache.texts (row_of id s.world.db)
unfolding get_product_rpc
get_product_rpc-told c raw id s parsed calm fresh =
    let u = c.cache.texts in
    let row = row_of id s.world.db in
    ap (λ o. (with_id o (λ i t. answered_by (product_proto u) (find_product c i t)) s).0) parsed
    ∙ answered_result u (find_product c id s)
    ∙ (find_product-Read c id (λ r. reply_to u r ≡ told u row) s
        (subst (λ fs. Foreign (next_fault fs)) (sym calm) tt) (answer-told u row)
        (find_by_id-told u id s.world calm) fresh).0
