-- ===== src/Store/Tx/Unavailable.antt =====
-- The errors that leave the store: which of them are ErrUnavailable.
use storefront.Common.{
  Bool, Bool-cases, Option, Text, arith, false, if◌then◌else◌, inl, inr, none, not, refl, some,
  true, ◌&&◌, ◌||◌, ◌≡◌, ◌≢◌,
}
use storefront.Errors.{
  GoError, Sentinel, as_net_error, as_pg_error, canceled, deadline_exceeded, is, same, same_sound,
  unavailable,
}
use storefront.Store.Tx.{is_unavailable_code, map_by_code, map_db_error, tag_unavailable}

-- the error is one of the server's or of the network that may pass
abbrev pub by_code : Option Text → GoError → Bool
by_code (some code) e = is_unavailable_code code
by_code none e = as_net_error e

abbrev pub is_temporary : GoError → Bool
is_temporary e = not (is canceled e || is deadline_exceeded e) && by_code (as_pg_error e) e

map_db_error-is_temporary :
    (e : GoError) → map_db_error e ≡ (if is_temporary e then tag_unavailable e else e)
unfolding map_db_error
map_db_error-is_temporary e = by_cases (is canceled e || is deadline_exceeded e) (as_pg_error e)
  where
    by_cases :
        (stopped : Bool) (code : Option Text)
        → (if stopped then e else map_by_code code e)
          ≡ (if not stopped && by_code code e then tag_unavailable e else e)
    by_cases true code = refl
    by_cases false none = refl
    by_cases false (some code) = refl

other_sentinel : (s : Sentinel) → s ≢ unavailable → same s unavailable ≡ false
other_sentinel s n = elim (Bool-cases (same s unavailable)) [
  | inl h ↦ absurd (n (same_sound s unavailable h))
  | inr h ↦ h
]

-- mapDBError adds ErrUnavailable to an error exactly when the error is temporary: its first code of
-- the server is of class 08, 53, 57 or 58, or it has no such code and is of the network, and it is no
-- cancellation or deadline of the caller. Every other error that errors.Is finds in it, and the code,
-- are those of the error that came in.
pub map_db_error_tags :
    (e : GoError)
    → (is unavailable (map_db_error e) ≡ (is unavailable e || is_temporary e))
      × ((s : Sentinel) → s ≢ unavailable → is s (map_db_error e) ≡ is s e)
      × (as_pg_error (map_db_error e) ≡ as_pg_error e)
unfolding is as_pg_error
map_db_error_tags e = by_tag (is_temporary e) (map_db_error-is_temporary e)
  where
    by_tag :
        (temporary : Bool)
        → map_db_error e ≡ (if temporary then tag_unavailable e else e)
        → (is unavailable (map_db_error e) ≡ (is unavailable e || temporary))
          × ((s : Sentinel) → s ≢ unavailable → is s (map_db_error e) ≡ is s e)
          × (as_pg_error (map_db_error e) ≡ as_pg_error e)
    by_tag true h = rw h (ground arith, λ s n. rw (other_sentinel s n) refl, refl)
    by_tag false h = rw h (ground arith, λ s n. refl, refl)
