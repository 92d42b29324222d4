-- ===== src/Http/Late.antt =====
-- The handlers on a body that bodyLimit has cut off: internal/transport/http/handler.go.
use storefront.Common.{
  Bool, Bool-cases, Option, Text, ap, arith, codes, false, if◌then◌else◌, inl, inr, leb, length,
  none, refl, some, subst, sym, take, text_eq, text_eq_sound, true, ℕ, ◌∙◌, ◌≡◌, ◌≢◌,
}
use storefront.Auth.{bearer_token, verify}
use storefront.Cache.{put}
use storefront.Domain.Pages.{Uuid}
use storefront.Errors.{Result, err, ok, same}
use storefront.Http.{
  Answer, Body, Created, Handler, add, create_order_handler, decoded, empty_body, if_caller,
  if_decoded, if_parsed, malformed, path_id, responds, responds_error, too_large, update_handler,
}
use storefront.Http.Api.{Deployment, api_mux, require_token}
use storefront.Http.Arrivals.{NeedsEnd}
use storefront.Http.Middleware.{has_body}
use storefront.Http.Router.{
  Resource, add_http, auth, create_order_http, if_bearer, new_mux, one_order, one_product,
  order_list, product_list, resource_of, route, unauthorized, unknown, update_http, with_user,
}
use storefront.Http.Wire.{
  Exchange, HttpHandler, Payload, Request, Seen, body_of, created_headers, cut, error_message,
  is_zero, no_extra, order, plain_error, product, respond_json-state, seen, with_header,
  write_header, written,
}
use storefront.Service.{State}

-- a body that decodes to nothing stops the handler
refused_body :
    {A B : Type 0} (b : Body A) (h : A → Handler B) (s : State)
    → ((a : A) → b ≢ decoded a)
    → (if_decoded b h s).1 ≡ s
refused_body empty_body h s n = refl
refused_body too_large h s n = refl
refused_body malformed h s n = refl
refused_body (decoded a) h s n = absurd (n a refl)

if_parsed_state :
    {A : Type 0} (o : Option Uuid) (h : Uuid → Handler A) (s : State)
    → ((id : Uuid) → (h id s).1 ≡ s)
    → (if_parsed o h s).1 ≡ s
if_parsed_state none h s same = refl
if_parsed_state (some id) h s same = same id

if_caller_state :
    {A : Type 0} (o : Option Uuid) (h : Uuid → Handler A) (s : State)
    → ((user : Uuid) → (h user s).1 ≡ s)
    → (if_caller o h s).1 ≡ s
if_caller_state none h s same = refl
if_caller_state (some user) h s same = same user

cut_body :
    {A : Type 0} (decode : Seen → Body A) (r : Request) (max : ℕ) (a : A)
    → ((t : Text) (b : A) → decode (cut t) ≢ decoded b)
    → r.limit ≡ some max
    → leb (length r.body) max ≡ false
    → body_of decode r ≢ decoded a
cut_body decode r max a complete limit long e = go (is_zero r.content_length) e
  where
    is_cut : seen r ≡ cut (take max r.body)
    is_cut = rw (limit, long) refl

    go : (b : Bool) → (if b then empty_body else decode (seen r)) ≡ decoded a → ⊥
    go true e = cc
    go false e = complete (take max r.body) a (ap decode (sym is_cut) ∙ e)

pub written-state :
    {A : Type 0} (extra : A → Exchange → Exchange) (show : A → Payload) (out : Answer A × State)
    (r : Request) (x : Exchange)
    → ((a : A) (y : Exchange) → (extra a y).state ≡ y.state)
    → (written extra show out r x).1.state ≡ out.1
unfolding written
written-state extra show (responds n a, s) r x same =
    let y = record x { state = s } in respond_json-state n (show a) (extra a y) ∙ same a y
written-state extra show (responds_error n, s) r x same =
    respond_json-state n error_message (record x { state = s })

-- the answer of Auth to a request without an accepted token
pub unauthorized-state : (r : Request) (x : Exchange) → (unauthorized r x).1.state ≡ x.state
unauthorized-state r x =
    respond_json-state 401 error_message (with_header (codes "WWW-Authenticate") (codes "Bearer") x)

pub created_headers-state : (o : Created) (y : Exchange) → (created_headers o y).state ≡ y.state
created_headers-state o y = ground arith

module _ (d : Deployment) where
  module _ (complete : NeedsEnd d.decoders) (r : Request) (max : ℕ) (limit : r.limit ≡ some max)
      (long : leb (length r.body) max ≡ false) where
    add_cut : (x : Exchange) → (add_http d.services d.decoders r x).1.state ≡ x.state
    unfolding add
    add_cut x =
        written-state no_extra product (add d.services (body_of d.decoders.add_body r) x.state) r x
          (λ a y. refl)
        ∙ refused_body (body_of d.decoders.add_body r) _ x.state
            (λ a. cut_body d.decoders.add_body r max a complete.add_end limit long)

    update_cut :
        (id : Text) (x : Exchange) → (update_http d.services d.decoders id r x).1.state ≡ x.state
    unfolding update_handler
    update_cut id x =
        written-state no_extra product
          (update_handler d.services id (body_of d.decoders.update_body r) x.state) r x
          (λ a y. refl)
        ∙ if_parsed_state (path_id d.services id) _ x.state (λ i.
          refused_body (body_of d.decoders.update_body r) _ x.state
            (λ a. cut_body d.decoders.update_body r max a complete.update_end limit long))

    create_order_cut :
        (x : Exchange) → (create_order_http d.services d.decoders r x).1.state ≡ x.state
    unfolding create_order_handler
    create_order_cut x =
        written-state created_headers (λ o. order o.order)
          (create_order_handler d.services r.caller (r.header (codes "Idempotency-Key"))
            (body_of d.decoders.order_body r) x.state)
          r x created_headers-state
        ∙ if_caller_state r.caller _ x.state (λ user.
          refused_body (body_of d.decoders.order_body r) _ x.state
            (λ a. cut_body d.decoders.order_body r max a complete.order_end limit long))

  -- a POST, PUT or PATCH that is too long
  module _ (complete : NeedsEnd d.decoders) (max : ℕ) where
    abbrev pub TooLong : Request → Type 0
    TooLong r = (r.limit ≡ some max) × (leb (length r.body) max ≡ false)

    create_order_late :
        (r : Request) (x : Exchange)
        → TooLong r
        → (require_token d (create_order_http d.services d.decoders) r x).1.state ≡ x.state
    unfolding auth
    create_order_late r x (limit, long) =
        by_bearer (bearer_token (r.header (codes "Authorization")))
      where
        h : HttpHandler
        h = create_order_http d.services d.decoders

        by_user : (v : Result Uuid) → (with_user v h r x).1.state ≡ x.state
        by_user (err e) = unauthorized-state r x
        by_user (ok user) =
            create_order_cut complete (record r { caller = some user }) max limit long x

        by_bearer :
            (t : Option Text)
            → (if_bearer d.services.cache.texts d.parser t h r x).1.state ≡ x.state
        by_bearer none = unauthorized-state r x
        by_bearer (some token) = by_user (verify d.services.cache.texts d.parser token)

    post_late :
        (p : Resource) (r : Request) (x : Exchange)
        → TooLong r
        → (route d.services d.decoders (require_token d) p (codes "POST") r x).1.state ≡ x.state
    unfolding route text_eq plain_error write_header
    post_late product_list r x (limit, long) = add_cut complete r max limit long x
    post_late order_list r x cut_off = create_order_late r x cut_off
    post_late (one_product id) r x cut_off = refl
    post_late (one_order id) r x cut_off = refl
    post_late unknown r x cut_off = refl

    put_late :
        (p : Resource) (r : Request) (x : Exchange)
        → TooLong r
        → (route d.services d.decoders (require_token d) p (codes "PUT") r x).1.state ≡ x.state
    unfolding route text_eq plain_error write_header
    put_late (one_product id) r x (limit, long) = update_cut complete r max limit long id x
    put_late product_list r x cut_off = refl
    put_late order_list r x cut_off = refl
    put_late (one_order id) r x cut_off = refl
    put_late unknown r x cut_off = refl

    patch_refused :
        (p : Resource) (r : Request) (x : Exchange)
        → (route d.services d.decoders (require_token d) p (codes "PATCH") r x).1.state ≡ x.state
    unfolding route text_eq plain_error write_header
    patch_refused (one_product id) r x = refl
    patch_refused product_list r x = refl
    patch_refused order_list r x = refl
    patch_refused (one_order id) r x = refl
    patch_refused unknown r x = refl

    pub late_unchanged :
        (r : Request) (x : Exchange)
        → has_body r.method ≡ true
        → TooLong r
        → (api_mux d r x).1.state ≡ x.state
    unfolding new_mux
    late_unchanged r x b cut_off = elim (Bool-cases (text_eq r.method (codes "POST"))) [
      | inl post ↦ at_method (codes "POST") post (post_late (resource_of r.path) r x cut_off)
      | inr not_post ↦ elim (Bool-cases (text_eq r.method (codes "PUT"))) [
        | inl put ↦ at_method (codes "PUT") put (put_late (resource_of r.path) r x cut_off)
        | inr not_put ↦
            at_method (codes "PATCH") (ground (arith, b)) (patch_refused (resource_of r.path) r x)
      ]
    ]
      where
        at_method :
            (m : Text)
            → text_eq r.method m ≡ true
            → (route d.services d.decoders (require_token d) (resource_of r.path) m r x).1.state
              ≡ x.state
            → (route d.services d.decoders
                (require_token d)
                (resource_of r.path)
                r.method
                r
                x).1.state
              ≡ x.state
        at_method m e same =
            subst
              (λ (t : Text).
                (route d.services d.decoders (require_token d) (resource_of r.path) t r x).1.state
                ≡ x.state)
              (sym (text_eq_sound r.method m e)) same
