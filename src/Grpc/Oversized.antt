-- ===== src/Grpc/Oversized.antt =====
-- CreateProduct with a name that passes the validation and does not fit its column.
use storefront.Common.{
  Bool, Text, [], ap, arith, false, none, refl, text_eq, true, ℕ, ℤ, ◌+◌, ◌<◌, ◌∙◌, ◌≡◌,
}
use storefront.Domain.Pages.{UuidText}
use storefront.Domain.Products.{Product, validate_product}
use storefront.Errors.{GoError, Result, as_net_error, as_pg_error, err, is, ok}
use storefront.Events.{type_created}
use storefront.Grpc.{
  MoneyProto, answered_by, as_internal, create_product_rpc, product_proto, refuses,
  requested_product, to_status, when_valid,
}
use storefront.Service.{Services, State, create}
use storefront.Store.Products.{announce, save, save_body}
use storefront.Store.Refusals.{exec_calm}
use storefront.Store.Schema.{
  Db, Sql, all_spaces, char_count, drop_chars, in_int4, in_int8, stored_product,
  string_data_right_truncation, unable_to_encode, varchar,
}
use storefront.Store.Sql.Products.{insert_product}
use storefront.Store.Tx.{
  Platform, Tx, World, after_call, exec, fail, finish, is_unavailable_code, later_faults, lost,
  map_db_error, next_fault, pass, pure, settle, with_tx, ◌>>◌,
}

internal_insert :
    (p : Product) (db : Db)
    → varchar 100 p.name ≡ none
    → (e : GoError) × (insert_product p db ≡ err e) × (to_status (map_db_error e) ≡ as_internal)
unfolding insert_product stored_product to_status map_db_error is as_pg_error as_net_error
    is_unavailable_code text_eq in_int8
internal_insert p db long = go (in_int4 p.stock) refl
  where
    go :
        (fits : Bool)
        → in_int4 p.stock ≡ fits
        → (e : GoError) × (insert_product p db ≡ err e) × (to_status (map_db_error e) ≡ as_internal)
    go false f = (unable_to_encode, rw f refl, refl)
    go true f = (string_data_right_truncation, rw (f, long) refl, refl)

varchar-refuses :
    (name : Text)
    → 100 < char_count name
    → all_spaces (drop_chars 100 name) ≡ false
    → varchar 100 name ≡ none
unfolding varchar
varchar-refuses name long no_spaces = ground (arith, long, no_spaces)

exec_refused :
    {A : Type 0} (st : Sql A) (w : World) (e : GoError)
    → w.faults ≡ []
    → st w.db ≡ err e
    → (exec st w).0 ≡ err e
exec_refused st w e calm refused =
    ap (λ out. out.0) (exec_calm st w calm) ∙ ap (λ r. (settle r (after_call w)).0) refused

save_body_refused :
    (pf : Platform) (p : Product) (w : World) (e : GoError)
    → (exec (insert_product p) w).0 ≡ err e
    → (save_body pf p w).0 ≡ err e
save_body_refused pf p w e h = go (exec (insert_product p) w) h
  where
    go :
        (out : Result ℕ × World)
        → out.0 ≡ err e
        → (let (r, w') = out in
            elim r as (λ x. Result Product × World) [
              | ok version ↦
                  (do
                    announce pf type_created (record p { version = version })
                    pure (record p { version = version }))
                    w'
              | err x ↦ (err x, w')
            ]).0
          ≡ err e
    go (ok n, w') h = cc
    go (err x, w') h = ap (λ (r : Result ℕ). elim r [ ok n ↦ err e | err y ↦ err y ]) h

finish_refused :
    {A : Type 0} (db : Db) (out : Result A × World) (e : GoError)
    → out.0 ≡ err e
    → (finish db out).0 ≡ err (map_db_error e)
finish_refused db (ok a, w) e h = cc
finish_refused {A} db (err x, w) e h =
    ap (λ (r : Result A). elim r [ ok a ↦ err e | err y ↦ err (map_db_error y) ]) h

with_tx_calm :
    {A : Type 0} (fn : Tx A) (w : World)
    → w.faults ≡ []
    → with_tx fn w ≡ finish w.db (fn (after_call w))
unfolding with_tx
with_tx_calm {A} fn w calm =
    ap
      (λ x. elim x as (λ y. Result A × World) [
        | pass ↦ finish w.db (fn (after_call w))
        | fail e ↦ (err (map_db_error e), after_call w)
        | lost e ↦ (err (map_db_error e), after_call w)
      ])
      (ap next_fault calm)

save_refused :
    (pf : Platform) (p : Product) (w : World) (e : GoError)
    → w.faults ≡ []
    → insert_product p w.db ≡ err e
    → (save pf p w).0 ≡ err (map_db_error e)
unfolding save
save_refused pf p w e calm refused =
    ap (λ out. out.0) (with_tx_calm (save_body pf p) w calm)
    ∙ finish_refused w.db (save_body pf p (after_call w)) e (
        save_body_refused pf p (after_call w) e
          (exec_refused (insert_product p) (after_call w) e (ap later_faults calm) refused))

answered_refused :
    (u : UuidText) (out : Result Product × State) (e : GoError)
    → out.0 ≡ err e
    → (answered_by (product_proto u) out).0 ≡ refuses (to_status e)
answered_refused u (ok p, s) e h = cc
answered_refused u (err x, s) e h =
    ap
      (λ (r : Result Product). elim r [
        | ok p ↦ refuses (to_status e)
        | err y ↦ refuses (to_status y)
      ])
      h

-- When no call fails, CreateProduct answers Internal for a product that passes the validation and whose
-- name does not fit its column: it has more than 100 characters, and not only spaces behind the 100th.
pub create_product_rpc-oversized :
    (c : Services) (name : Text) (price : MoneyProto) (stock : ℤ) (s : State)
    → s.world.faults ≡ []
    → validate_product (requested_product 0 name price stock) ≡ ok tt
    → 100 < char_count name
    → all_spaces (drop_chars 100 name) ≡ false
    → (create_product_rpc c name price stock s).0 ≡ refuses as_internal
unfolding create_product_rpc create
create_product_rpc-oversized c name price stock s calm valid long no_spaces =
    let u = c.cache.texts in
    let p = requested_product 0 name price stock in
    let w = record s.world { drawn = s.world.drawn + 1 } in
    let drawn_p = record p { id = c.store.new_v7 s.world.drawn } in
    let (e, refused, internal) =
      internal_insert drawn_p s.world.db (varchar-refuses name long no_spaces) in
    ap (λ v. (when_valid v (λ t. answered_by (product_proto u) (create c p t)) s).0) valid
    ∙ answered_refused u (create c p s) (map_db_error e)
        (save_refused c.store drawn_p w e calm refused)
    ∙ ap refuses internal
