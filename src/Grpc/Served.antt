-- ===== src/Grpc/Served.antt =====
-- What a call of the gRPC server ends in: internal/transport/grpc/interceptor.go and server.go.
use storefront.Common.{
  List, Option, Text, [], false, inl, inr, none, refl, some, ◌++◌, ◌∷◌, ◌≡◌, ◌⊎◌,
}
use storefront.Auth.{Parser, bearer_token, verify}
use storefront.Domain.Pages.{Uuid, UuidText}
use storefront.Errors.{Result, err, ok}
use storefront.Grpc.{Reply, as_internal, as_unauthenticated, refuses}
use storefront.Grpc.Interceptors.{
  Context, Ending, Line, Serving, Unary, bearer_from, code_of, crashed, is_public, panic_line,
  rejected_line, replied, request_line, require_auth, verified, with_token,
}
use storefront.Grpc.Server.{Message}

-- the caller has shown a token of the user in the first value of the metadata
pub record Shown (u : UuidText) (parser : Parser) (values : List Text) (user : Uuid) : Type 0 where
  pub header : Text
  pub more : List Text
  pub token : Text
  pub first : values ≡ header ∷ more
  pub bears : bearer_token header ≡ some token
  pub accepted : verify u parser token ≡ ok user

bearer_from-first :
    (values : List Text) (token : Text)
    → bearer_from values ≡ some token
    → (header : Text) × (more : List Text) × (values ≡ header ∷ more)
      × (bearer_token header ≡ some token)
unfolding bearer_from
bearer_from-first [] token h = cc
bearer_from-first (header ∷ more) token h = (header, more, refl, h)

-- A method that is neither listed as public nor of the server's own infrastructure is refused as
-- Unauthenticated and changes nothing, or its handler runs for the user of an accepted bearer token.
pub require_auth_cases :
    {A : Type 0} (u : UuidText) (parser : Parser) (method : Text) (handler : Unary A) (c : Context)
    (s : Serving)
    → is_public method ≡ false
    → let out = require_auth u parser method handler c s in
      ((out.0 ≡ replied (refuses as_unauthenticated)) × (out.1.state ≡ s.state))
      ⊎ ((user : Uuid) × Shown u parser c.authorization user
          × (out ≡ handler (record c { user = some user }) s))
unfolding require_auth
require_auth_cases {A} u parser method handler c s private =
    rw private (by_token (bearer_from c.authorization) refl)
  where
    Goal : Ending A × Serving → Type 0
    Goal out =
        ((out.0 ≡ replied (refuses as_unauthenticated)) × (out.1.state ≡ s.state))
        ⊎ ((user : Uuid) × Shown u parser c.authorization user
            × (out ≡ handler (record c { user = some user }) s))

    by_user :
        (token : Text) (r : Result Uuid)
        → bearer_from c.authorization ≡ some token
        → verify u parser token ≡ r
        → Goal (verified r handler c s)
    by_user token (err e) h v = inl (refl, refl)
    by_user token (ok user) h v =
        let (header, more, first, bears) = bearer_from-first c.authorization token h in
        inr (
          user,
          record {
            header = header;
            more = more;
            token = token;
            first = first;
            bears = bears;
            accepted = v;
          },
          refl,
        )

    by_token :
        (o : Option Text)
        → bearer_from c.authorization ≡ o
        → Goal (with_token u parser o handler c s)
    by_token none h = inl (refl, refl)
    by_token (some token) h = by_user token (verify u parser token) h refl

-- The lines that the inner interceptors log for a call, by its reply.
pub data Inside (method : Text) : Reply Message → List Line → Type 0 where
  quiet : (r : Reply Message) → Inside method r []
  rejected : Inside method (refuses as_unauthenticated) (rejected_line ∷ [])
  recovered : Inside method (refuses as_internal) (panic_line method ∷ [])

-- The call has been replied to, and the last of its lines has the method and the code of the reply.
pub record Replied (method : Text) (before : List Line) (out : Ending Message × Serving)
    : Type 0 where
  pub reply : Reply Message
  pub inner : List Line
  pub ends : out.0 ≡ replied reply
  pub inside : Inside method reply inner
  pub logged : out.1.lines ≡ (before ++ inner) ++ request_line method (code_of reply) ∷ []

module _ (method : Text) (before : List Line) where
  -- inside the recovery, a call may still have crashed
  abbrev Inner : Ending Message × Serving → Type 0
  Inner (replied r, t) = (inner : List Line) × Inside method r inner × (t.lines ≡ before ++ inner)
  Inner (crashed, t) = t.lines ≡ before
