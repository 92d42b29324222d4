-- ===== src/Auth.antt =====
-- internal/auth/auth.go. The JWT package checks a token and yields its subject.
use storefront.Common.{
  Bool, Option, Text, codes, drop, if◌then◌else◌, leb, length, ltb, map, none, not, some, take,
  text_eq, ℕ, ◌&&◌, ◌+◌, ◌||◌,
}
use storefront.Domain.Pages.{Uuid, UuidText}
use storefront.Errors.{Result, err, invalid_token, message, ok, sentinel, wrap_both}

-- v.parser.ParseWithClaims: the subject of a token that is signed, not expired and well formed
abbrev pub Parser : Type 0
Parser = Text → Result Text

abbrev pub subject_id : Option Uuid → Result Uuid
subject_id none = err (wrap_both (sentinel invalid_token) (message (codes "sub is not a uuid")))
subject_id (some id) = ok id

-- `Verify`
unfoldable pub verify : UuidText → Parser → Text → Result Uuid
verify u parser token = elim (parser token) [
  | ok subject ↦ subject_id (u.parse subject)
  | err e ↦ err (wrap_both (sentinel invalid_token) e)
]

-- strings.EqualFold with a text of ASCII letters other than k and s, which alone fold to others
abbrev pub lower : ℕ → ℕ
lower b = if leb 65 b && leb b 90 then b + 32 else b

unfoldable pub equal_fold : Text → Text → Bool
equal_fold s t = text_eq (map lower s) (map lower t)

abbrev pub scheme : Text
scheme = codes "Bearer "

-- `BearerToken`
unfoldable pub bearer_token : Text → Option Text
bearer_token header =
    if ltb (length header) (length scheme) || not (equal_fold (take (length scheme) header) scheme)
    then none
    else some (drop (length scheme) header)
