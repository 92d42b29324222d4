-- ===== src/Http/Wire.antt =====
-- What net/http hands to a handler: the request, the response writer and the status recorder of
-- internal/transport/http/middleware.go around it; and respond of codec.go over them.
use storefront.Common.{
  Bool, List, Option, Text, [], codes, false, if◌then◌else◌, leb, length, negsuc, none, pos, refl,
  some, take, text_eq, true, ℕ, ℤ, ◌==◌, ◌∷◌, ◌≡◌,
}
use storefront.Domain.Pages.{Uuid}
use storefront.Http.{
  Answer, Body, Created, OrderResponse, ProductResponse, empty_body, responds, responds_error,
}
use storefront.Http.Lists.{Listed}
use storefront.Service.{State}

-- the headers of an answer
abbrev pub Header : Type 0
Header = Text → Option Text

-- http.Header.Set
abbrev pub set_header : Text → Text → Header → Header
set_header k v h j = if text_eq j k then some v else h j

-- What the decoder reads of a body: all of it, or a first part and then the error of
-- http.MaxBytesReader.
pub data Seen : Type 0 where
  whole cut : Text → Seen

-- The path in its segments, the query by the values of its parameters, the headers by their first
-- values; an absent value is empty. `limit` is what http.MaxBytesHandler has set, and `caller` the user
-- that Auth has put into the context.
pub record Request : Type 0 where
  pub method : Text
  pub path : List Text
  pub query : Text → Text
  pub header : Text → Text
  pub host : Text
  pub content_length : ℤ
  pub body : Text
  pub limit : Option ℕ
  pub caller : Option Uuid

pub data Payload : Type 0 where
  product : ProductResponse → Payload
  products : Listed ProductResponse → Payload
  order : OrderResponse → Payload
  orders : Listed OrderResponse → Payload
  product_deleted error_message : Payload
  -- a payload behind the compression
  encoded : Text → Payload → Payload
  -- what has been written of a payload when its writing failed
  broken_off : Payload → Payload

abbrev pub is_broken : Payload → Bool
is_broken (broken_off p) = true
is_broken _ = false

-- what has gone out with the first WriteHeader
pub record Sent : Type 0 where
  pub status : ℕ
  pub header : Header

pub record LogLine : Type 0 where
  pub method : Text
  pub path : List Text
  pub status : ℕ

-- The state of an exchange: the headers set so far, what has been sent, the status of the
-- statusRecorder, the payloads written, whether the next calls of json.MarshalWrite fail (behind the
-- list's end none does), the log, and the program's own state.
pub record Exchange : Type 0 where
  pub header : Header
  pub sent : Option Sent
  pub recorded : ℕ
  pub payloads : List Payload
  pub fails : List Bool
  pub logged : List LogLine
  pub state : State

pub data Ended : Type 0 where
  returned panicked : Ended

abbrev pub HttpHandler : Type 0
HttpHandler = Request → Exchange → Ended × Exchange

abbrev pub first_sent : Option Sent → Sent → Option Sent
first_sent none s = some s
first_sent (some s) later = some s

-- WriteHeader of the statusRecorder: the first call sends the headers, the last one is recorded
unfoldable pub write_header : ℕ → Exchange → Exchange
write_header n x = record x {
  sent = first_sent x.sent (record { status = n; header = x.header });
  recorded = n;
}

abbrev pub with_header : Text → Text → Exchange → Exchange
with_header k v x = record x { header = set_header k v x.header }

abbrev pub content_type : Text
content_type = codes "Content-Type"

abbrev pub nosniff : Text
nosniff = codes "X-Content-Type-Options"

-- http.Error of net/http
unfoldable pub plain_error : ℕ → Exchange → Exchange
unfolding write_header
plain_error n x =
    let y = write_header n (
      with_header nosniff (codes "nosniff")
        (with_header content_type (codes "text/plain; charset=utf-8") x)) in
    record y { payloads = error_message ∷ y.payloads }

-- the call of json.MarshalWrite in `respond`; the status of http.Error comes behind the first one
abbrev pub marshal_write : List Bool → Payload → Exchange → Exchange
marshal_write [] p x = record x { payloads = p ∷ x.payloads }
marshal_write (false ∷ later) p x = record x { fails = later; payloads = p ∷ x.payloads }
marshal_write (true ∷ later) p x =
    plain_error 500 (record x { fails = later; payloads = broken_off p ∷ x.payloads })

-- `respond` of codec.go
unfoldable pub respond_json : ℕ → Payload → Exchange → Exchange
respond_json n p x =
    marshal_write x.fails p (write_header n (with_header content_type (codes "application/json") x))

pub respond_json-state : (n : ℕ) (p : Payload) (x : Exchange) → (respond_json n p x).state ≡ x.state
unfolding respond_json plain_error write_header
respond_json-state n p x = go x.fails
  where
    y : Exchange
    y = write_header n (with_header content_type (codes "application/json") x)

    go : (l : List Bool) → (marshal_write l p y).state ≡ x.state
    go [] = refl
    go (false ∷ later) = refl
    go (true ∷ later) = refl

-- the answer of a handler, written out: `extra` sets the handler's own headers
unfoldable pub written :
    {A : Type 0} → (A → Exchange → Exchange) → (A → Payload) → Answer A × State → HttpHandler
unfolding respond_json
written extra show (responds n a, s) r x =
    (returned, respond_json n (show a) (extra a (record x { state = s })))
written extra show (responds_error n, s) r x =
    (returned, respond_json n error_message (record x { state = s }))

abbrev pub no_extra : {A : Type 0} → A → Exchange → Exchange
no_extra a x = x

-- the headers Location and Idempotency-Replayed of CreateOrder
abbrev pub created_headers : Created → Exchange → Exchange
created_headers o x =
    let y = with_header (codes "Location") o.location x in
    if o.replayed then with_header (codes "Idempotency-Replayed") (codes "true") y else y

-- the body that decodeBody reads
abbrev pub seen : Request → Seen
seen r = elim r.limit [
  | none ↦ whole r.body
  | some n ↦ if leb (length r.body) n then whole r.body else cut (take n r.body)
]

abbrev pub is_zero : ℤ → Bool
is_zero (pos n) = n == 0
is_zero (negsuc n) = false

-- the check of ContentLength, and decodeBody with the decoder
abbrev pub body_of : {A : Type 0} → (Seen → Body A) → Request → Body A
body_of decode r = if is_zero r.content_length then empty_body else decode (seen r)
