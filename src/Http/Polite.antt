-- ===== src/Http/Polite.antt =====
-- The status and the headers that a handler of internal/transport/http sends, and the status that
-- the recorder of middleware.go keeps.
use storefront.Common.{
  Bool, List, Option, Text, [], any, ap, arith, codes, false, if◌then◌else◌, inl, inr, none, refl,
  some, subst, text_eq, true, ℕ, ◌∷◌, ◌≡◌, ◌⊎◌,
}
use storefront.Auth.{Parser, bearer_token, verify}
use storefront.Domain.Pages.{Uuid, UuidText}
use storefront.Errors.{Result, err, ok, same}
use storefront.Http.{Answer, Created, responds, responds_error}
use storefront.Http.Middleware.{
  MiddlewareCfg, content_policy, hsts, is_security_header, transport_security,
}
use storefront.Http.Router.{auth, if_bearer, not_allowed, unauthorized, with_user}
use storefront.Http.Wire.{
  Ended, Exchange, Header, HttpHandler, LogLine, Payload, Request, Sent, content_type,
  created_headers, error_message, first_sent, is_broken, marshal_write, no_extra, nosniff,
  plain_error, respond_json, returned, set_header, with_header, write_header, written,
}
use storefront.Service.{State}

-- the status that is recorded, by the one that was sent
abbrev pub Records : ℕ → Exchange → Type 0
Records n x = (x.recorded ≡ n) ⊎ ((x.recorded ≡ 500) × (any is_broken x.payloads ≡ true))

module _ (cfg : MiddlewareCfg) where
  -- the headers that securityHeaders sets
  abbrev pub Secure : Header → Type 0
  Secure h =
      (h nosniff ≡ some (codes "nosniff"))
      × (h content_policy ≡ some (codes "frame-ancestors 'none'"))
      × (cfg.hsts_enabled ≡ true → h transport_security ≡ some (hsts cfg.hsts_max_age))

  -- Nothing has been sent yet, below secure headers.
  pub record IsFresh (x : Exchange) : Type 0 where
    pub unsent : x.sent ≡ none
    pub secure_so_far : Secure x.header

  -- The handler has returned with an answer that is sent, and whose status is the recorded one, or
  -- the writing of a payload has failed and 500 is recorded.
  pub record Answered (logged : List LogLine) (out : Ended × Exchange) : Type 0 where
    pub has_returned : out.0 ≡ returned
    pub status : ℕ
    pub header : Header
    pub was_sent : out.1.sent ≡ some (record { status = status; header = header })
    pub is_secure : Secure header
    pub stays_secure : Secure out.1.header
    pub records : Records status out.1
    pub same_log : out.1.logged ≡ logged

  abbrev pub Polite : HttpHandler → Type 0
  Polite h = (r : Request) (x : Exchange) → IsFresh x → Answered x.logged (h r x)

  set_header-Secure :
      (k v : Text) (h : Header)
      → is_security_header k ≡ false
      → Secure h
      → Secure (set_header k v h)
  set_header-Secure k v h n s = (ground arith, ground arith, λ e. ground (arith, s.2 e))

  pub with_header-IsFresh :
      (k v : Text) (x : Exchange)
      → is_security_header k ≡ false
      → IsFresh x
      → IsFresh (with_header k v x)
  with_header-IsFresh k v x n f = record {
    unsent = f.unsent;
    secure_so_far = set_header-Secure k v x.header n f.secure_so_far;
  }

  pub write_header-Answered :
      (n : ℕ) (x : Exchange) → IsFresh x → Answered x.logged (returned, write_header n x)
  unfolding write_header
  write_header-Answered n x f = record {
    has_returned = refl;
    status = n;
    header = x.header;
    was_sent = ap (λ s. first_sent s now) f.unsent;
    is_secure = f.secure_so_far;
    stays_secure = f.secure_so_far;
    records = inl refl;
    same_log = refl;
  }
    where
      now : Sent
      now = record { status = n; header = x.header }

  -- behind WriteHeader: a payload is written, or its writing fails
  marshal_write-Answered :
      (n : ℕ) (l : List Bool) (p : Payload) (x : Exchange)
      → IsFresh x
      → Answered x.logged (returned, marshal_write l p (write_header n x))
  unfolding write_header plain_error text_eq
  marshal_write-Answered n [] p x f = record {
    has_returned = refl;
    status = n;
    header = x.header;
    was_sent = ap (λ s. first_sent s (record { status = n; header = x.header })) f.unsent;
    is_secure = f.secure_so_far;
    stays_secure = f.secure_so_far;
    records = inl refl;
    same_log = refl;
  }
  marshal_write-Answered n (false ∷ later) p x f = record {
    has_returned = refl;
    status = n;
    header = x.header;
    was_sent = ap (λ s. first_sent s (record { status = n; header = x.header })) f.unsent;
    is_secure = f.secure_so_far;
    stays_secure = f.secure_so_far;
    records = inl refl;
    same_log = refl;
  }
  marshal_write-Answered n (true ∷ later) p x f =
      let s =
        set_header-Secure content_type (codes "text/plain; charset=utf-8") x.header refl
          f.secure_so_far in
      record {
        has_returned = refl;
        status = n;
        header = x.header;
        was_sent =
            ap (λ s. first_sent (first_sent s (record { status = n; header = x.header })) again)
              f.unsent;
        is_secure = f.secure_so_far;
        stays_secure = (refl, s.1, s.2);
        records = inr (refl, refl);
        same_log = refl;
      }
    where
      again : Sent
      again = record { status = 500; header = (plain_error 500 x).header }

  pub respond_json-Answered :
      (n : ℕ) (p : Payload) (x : Exchange)
      → IsFresh x
      → Answered x.logged (returned, respond_json n p x)
  unfolding respond_json text_eq
  respond_json-Answered n p x f =
      marshal_write-Answered n x.fails p (with_header content_type (codes "application/json") x)
        (with_header-IsFresh content_type (codes "application/json") x refl f)

  pub plain_error-Answered :
      (n : ℕ) (x : Exchange) → IsFresh x → Answered x.logged (returned, plain_error n x)
  unfolding plain_error text_eq
  plain_error-Answered n x f =
      let y = with_header content_type (codes "text/plain; charset=utf-8") x in
      let z = with_header nosniff (codes "nosniff") y in
      let g = with_header-IsFresh content_type (codes "text/plain; charset=utf-8") x refl f in
      -- written without json.MarshalWrite
      marshal_write-Answered n [] error_message z
        (record { unsent = g.unsent; secure_so_far = (refl, g.secure_so_far.1, g.secure_so_far.2) })

  state_IsFresh : (s : State) (x : Exchange) → IsFresh x → IsFresh (record x { state = s })
  state_IsFresh s x f = record { unsent = f.unsent; secure_so_far = f.secure_so_far }

  pub written-Answered :
      {A : Type 0} (extra : A → Exchange → Exchange) (show : A → Payload)
      → ((a : A) (x : Exchange) → IsFresh x → IsFresh (extra a x))
      → ((a : A) (x : Exchange) → (extra a x).logged ≡ x.logged)
      → (out : Answer A × State) (r : Request) (x : Exchange) → IsFresh x
      → Answered x.logged (written extra show out r x)
  unfolding written
  written-Answered extra show keeps same (responds n a, s) r x f =
      let y = extra a (record x { state = s }) in
      subst (λ (l : List LogLine). Answered l (returned, respond_json n (show a) y))
        (same a (record x { state = s }))
        (respond_json-Answered n (show a) y
          (keeps a (record x { state = s }) (state_IsFresh s x f)))
  written-Answered extra show keeps same (responds_error n, s) r x f =
      respond_json-Answered n error_message (record x { state = s }) (state_IsFresh s x f)

  pub plainly_written-Answered :
      {A : Type 0} (show : A → Payload) (out : Answer A × State) (r : Request) (x : Exchange)
      → IsFresh x
      → Answered x.logged (written no_extra show out r x)
  plainly_written-Answered show = written-Answered no_extra show (λ a x f. f) (λ a x. refl)

  pub created_headers-IsFresh :
      (o : Created) (x : Exchange) → IsFresh x → IsFresh (created_headers o x)
  unfolding text_eq
  created_headers-IsFresh o x f =
      go o.replayed (with_header-IsFresh (codes "Location") o.location x refl f)
    where
      y : Exchange
      y = with_header (codes "Location") o.location x

      go :
          (b : Bool)
          → IsFresh y
          → IsFresh (if b then with_header (codes "Idempotency-Replayed") (codes "true") y else y)
      go true g = with_header-IsFresh (codes "Idempotency-Replayed") (codes "true") y refl g
      go false g = g

  pub created_headers-logged :
      (o : Created) (x : Exchange) → (created_headers o x).logged ≡ x.logged
  created_headers-logged o x = ground arith

  pub if_Polite : (b : Bool) (h k : HttpHandler) → Polite h → Polite k → Polite (if b then h else k)
  if_Polite true h k p q = p
  if_Polite false h k p q = q

  unauthorized-Polite : Polite unauthorized
  unfolding text_eq
  unauthorized-Polite r x f =
      respond_json-Answered 401 error_message
        (with_header (codes "WWW-Authenticate") (codes "Bearer") x)
        (with_header-IsFresh (codes "WWW-Authenticate") (codes "Bearer") x refl f)

  pub auth-Polite :
      (u : UuidText) (parser : Parser) (h : HttpHandler) → Polite h → Polite (auth u parser h)
  unfolding auth
  auth-Polite u parser h p r x f = by_bearer (bearer_token (r.header (codes "Authorization")))
    where
      by_user : (v : Result Uuid) → Answered x.logged (with_user v h r x)
      by_user (err e) = unauthorized-Polite r x f
      by_user (ok user) = p (record r { caller = some user }) x f

      by_bearer : (t : Option Text) → Answered x.logged (if_bearer u parser t h r x)
      by_bearer none = unauthorized-Polite r x f
      by_bearer (some t) = by_user (verify u parser t)

  pub not_allowed-Polite : (methods : Text) → Polite (not_allowed methods)
  unfolding text_eq
  not_allowed-Polite methods r x f =
      plain_error-Answered 405 (with_header (codes "Allow") methods x)
        (with_header-IsFresh (codes "Allow") methods x refl f)
