-- ===== src/Grpc/Statuses.antt =====
-- toStatus of internal/transport/grpc/handler.go on the errors that leave the store.
use storefront.Common.{false, if◌then◌else◌, refl, ◌∙◌, ◌≡◌}
use storefront.Cache.{tagged}
use storefront.Errors.{
  GoError, canceled, deadline_exceeded, idempotency_mismatch, insufficient_stock, is, not_found,
  product_in_use, unavailable,
}
use storefront.Grpc.{as_canceled, as_deadline_exceeded, as_internal, as_unavailable, to_status}
use storefront.Store.Tx.{map_db_error}
use storefront.Store.Tx.Unavailable.{is_temporary, map_db_error_tags}

-- an error of the connection or the server wraps none of the program's own
pub record FromOutside (e : GoError) : Type 0 where
  pub no_absence : is not_found e ≡ false
  pub no_shortage : is insufficient_stock e ≡ false
  pub no_mismatch : is idempotency_mismatch e ≡ false
  pub no_use : is product_in_use e ≡ false
  pub no_outage : is unavailable e ≡ false

-- An error of the database that wraps none of the program's own errors is answered, when it leaves the
-- store, as Canceled or DeadlineExceeded if it is the caller's cancellation or deadline, as Unavailable
-- if it is temporary, and else as Internal.
pub to_status-map_db_error :
    (e : GoError)
    → FromOutside e
    → to_status (map_db_error e) ≡ (
        if is canceled e
        then as_canceled
        else if is deadline_exceeded e
        then as_deadline_exceeded
        else if is_temporary e
        then as_unavailable
        else as_internal)
unfolding to_status
to_status-map_db_error e o =
    let (tagged, kept, code) = map_db_error_tags e in
    rw
      (
        kept canceled (λ x. cc),
        kept deadline_exceeded (λ x. cc),
        kept not_found (λ x. cc) ∙ o.no_absence,
        kept insufficient_stock (λ x. cc) ∙ o.no_shortage,
        kept idempotency_mismatch (λ x. cc) ∙ o.no_mismatch,
        kept product_in_use (λ x. cc) ∙ o.no_use,
        tagged,
        o.no_outage,
      )
      refl
