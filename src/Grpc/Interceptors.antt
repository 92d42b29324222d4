-- ===== src/Grpc/Interceptors.antt =====
-- internal/transport/grpc/interceptor.go, over handlers that may panic.
use storefront.Common.{
  Bool, List, Option, Text, [], any, codes, if◌then◌else◌, length, ltb, none, some, take, text_eq,
  ℕ, ◌++◌, ◌+◌, ◌||◌, ◌∷◌,
}
use storefront.Auth.{Parser, bearer_token, verify}
use storefront.Domain.Pages.{Uuid, UuidText}
use storefront.Errors.{Result, err, ok}
use storefront.Grpc.{Code, Reply, as_internal, as_unauthenticated, refuses, replies_with}
use storefront.Service.{State}

-- how a call of a handler ends: with its reply, or in a panic
pub data Ending (A : Type 0) : Type 0 where
  replied : Reply A → Ending A
  crashed : Ending A

-- What a unary call carries in its context: the values of its metadata, the deadline, and the user that
-- an interceptor has put there.
pub record Context : Type 0 where
  pub authorization : List Text
  pub idempotency_key : List Text
  pub deadline : Option ℕ
  pub user : Option Uuid

pub data Line : Type 0 where
  request_line : Text → Option Code → Line
  panic_line : Text → Line
  rejected_line : Line

-- the program's state and the lines that the interceptors have logged
pub record Serving : Type 0 where
  pub state : State
  pub lines : List Line

abbrev pub Unary : Type 0 → Type 0
Unary A = Context → Serving → Ending A × Serving

abbrev pub log : Line → Serving → Serving
log line s = record s { lines = s.lines ++ line ∷ [] }

-- `publicMethods`
abbrev pub public_methods : List Text
public_methods =
    codes "/catalog.v1.ProductService/GetProduct"
    ∷ codes "/catalog.v1.ProductService/ListProducts"
    ∷ codes "/catalog.v1.ProductService/CreateProduct"
    ∷ codes "/catalog.v1.ProductService/UpdateProduct"
    ∷ codes "/catalog.v1.ProductService/DeleteProduct"
    ∷ []

-- strings.HasPrefix
abbrev pub has_prefix : Text → Text → Bool
has_prefix prefix t = text_eq (take (length prefix) t) prefix

unfoldable pub is_public : Text → Bool
is_public method = any (text_eq method) public_methods || has_prefix (codes "/grpc.") method

-- `bearerFromContext`, on the values of the authorization metadata
unfoldable pub bearer_from : List Text → Option Text
bearer_from [] = none
bearer_from (header ∷ more) = bearer_token header

abbrev pub verified : {A : Type 0} → Result Uuid → Unary A → Unary A
verified (err e) handler c s = (replied (refuses as_unauthenticated), log rejected_line s)
verified (ok sub) handler c s = handler (record c { user = some sub }) s

abbrev pub with_token : {A : Type 0} → UuidText → Parser → Option Text → Unary A → Unary A
with_token u parser none handler c s = (replied (refuses as_unauthenticated), s)
with_token u parser (some token) handler c s = verified (verify u parser token) handler c s

-- `requireAuth`, for the full name of a method
unfoldable pub require_auth : {A : Type 0} → UuidText → Parser → Text → Unary A → Unary A
require_auth u parser method handler c s =
    if is_public method
    then handler c s
    else with_token u parser (bearer_from c.authorization) handler c s

-- status.Code; `none` is OK
abbrev pub code_of : {A : Type 0} → Reply A → Option Code
code_of (replies_with a) = none
code_of (refuses code) = some code

abbrev pub logged_reply : {A : Type 0} → Text → Ending A × Serving → Ending A × Serving
logged_reply method (replied r, s) = (replied r, log (request_line method (code_of r)) s)
logged_reply method (crashed, s) = (crashed, s)

-- `logging`
unfoldable pub logging_rpc : {A : Type 0} → Text → Unary A → Unary A
logging_rpc method handler c s = logged_reply method (handler c s)

-- context.WithTimeout keeps a deadline that is earlier
abbrev pub earlier : Option ℕ → ℕ → ℕ
earlier none t = t
earlier (some parent) t = if ltb parent t then parent else t

-- `timeout`
unfoldable pub timeout_rpc : {A : Type 0} → ℕ → Unary A → Unary A
timeout_rpc d handler c s =
    handler (record c { deadline = some (earlier c.deadline (s.state.world.clock + d)) }) s

abbrev pub recovered_reply : {A : Type 0} → Text → Ending A × Serving → Ending A × Serving
recovered_reply method (replied r, s) = (replied r, s)
recovered_reply method (crashed, s) = (replied (refuses as_internal), log (panic_line method) s)

-- `recovery`
unfoldable pub recovery_rpc : {A : Type 0} → Text → Unary A → Unary A
recovery_rpc method handler c s = recovered_reply method (handler c s)
