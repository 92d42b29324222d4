-- ===== src/Service/CallGroup/Shared.antt =====
-- What the callers of Do get: internal/service/callgroup.go.
use storefront.Common.{
  All, All-append, All-map, Bool, List, Option, Text, [], arith, false, if◌then◌else◌, inl, inr,
  ltb, ltb→lt, map, none, refl, some, some_value, subst, text_eq, text_eq_sound, true, ℕ, ◌++◌, ◌+◌,
  ◌<◌, ◌∷◌, ◌≡◌, ◌≤◌, ◌⊎◌,
}
use storefront.Errors.{Result, deadline_exceeded, err, sentinel}
use storefront.Service.CallGroup.{
  CallGroup, Given, InFlight, Waiter, do_call, found_by, give, give_all, joined, read_in_flight,
  set_flight,
}

pub data Among {A : Type 0} (a : A) : List A → Type 0 where
  here : (xs : List A) → Among a (a ∷ xs)
  there : (x : A) (xs : List A) → Among a xs → Among a (x ∷ xs)

pub Among-append-right : {A : Type 0} {a : A} (xs ys : List A) → Among a ys → Among a (xs ++ ys)
Among-append-right [] ys m = m
Among-append-right (x ∷ xs) ys m = there x (xs ++ ys) (Among-append-right xs ys m)

pub Among-map-left :
    {A B : Type 0} (f : A → B) {a : A} (xs : List A) (ys : List B)
    → Among a xs
    → Among (f a) (map f xs ++ ys)
Among-map-left f _ ys (here xs) = here (map f xs ++ ys)
Among-map-left f _ ys (there x xs m) = there (f x) (map f xs ++ ys) (Among-map-left f xs ys m)

pub All-Among : {A : Type 0} (P : A → Type 0) {a : A} (xs : List A) → Among a xs → All P xs → P a
All-Among P _ (here xs) (p, h) = p
All-Among P _ (there x xs m) (p, h) = All-Among P xs m h

module _ {T : Type 0} (fn : Text → ℕ → Result T) (timeout : ℕ) where
  -- what the function has found when it read in time, or the error of its context behind its end
  abbrev Honest : Text → ℕ → ℕ → Result T → Type 0
  Honest key started t r =
      ((r ≡ fn key t) × (t < started + timeout))
      ⊎ ((r ≡ err (sentinel deadline_exceeded)) × (started + timeout ≤ t))

  -- The result is of a flight for the caller's key that was under way when the caller entered; the
  -- caller has waited no longer than the timeout of that flight.
  pub record Recent (a : Given T) : Type 0 where
    pub under_way : a.started ≤ a.waiter.since
    pub waits_first : a.waiter.since ≤ a.given_at
    pub waited : a.given_at ≤ a.started + timeout
    pub read_in_it : a.started ≤ a.read_at
    pub read_before : a.read_at ≤ a.given_at
    pub honest : Honest a.key a.started a.read_at a.result

  pub record InTime (now : ℕ) (key : Text) (f : InFlight T) : Type 0 where
    pub begun : f.started ≤ now
    pub in_context : f.ends_at ≡ f.started + timeout
    pub ends_by : now ≤ f.ends_at
    pub joined_in : All (λ (w : Waiter). (f.started ≤ w.since) × (w.since ≤ now)) f.waiters
    pub read_in :
        (out : ℕ × Result T)
        → f.outcome ≡ some out
        → (f.started ≤ out.0) × (out.0 ≤ now) × Honest key f.started out.0 out.1

  pub record IsShared (g : CallGroup T) : Type 0 where
    pub flights : (key : Text) (f : InFlight T) → g.in_flight key ≡ some f → InTime g.now key f
    pub recents : All Recent g.given

  -- a flight of the key is replaced
  set_flights :
      (g : CallGroup T) (key : Text) (o : Option (InFlight T))
      → ((f : InFlight T) → o ≡ some f → InTime g.now key f)
      → ((k : Text) (f : InFlight T) → g.in_flight k ≡ some f → InTime g.now k f)
      → (k : Text) (f : InFlight T) → set_flight key o g.in_flight k ≡ some f
      → InTime g.now k f
  set_flights g key o new old k f = go (text_eq key k) refl
    where
      go :
          (b : Bool)
          → text_eq key k ≡ b
          → (if b then o else g.in_flight k) ≡ some f
          → InTime g.now k f
      go true m e = subst (λ x. InTime g.now x f) (text_eq_sound key k m) (new f e)
      go false m e = old k f e

  joined-InTime :
      (g : CallGroup T) (caller : ℕ) (key : Text) (o : Option (InFlight T))
      → ((f : InFlight T) → o ≡ some f → InTime g.now key f)
      → InTime g.now key (joined timeout (record { caller = caller; since = g.now }) o)
  joined-InTime g caller key none h = record {
    begun = omega arith;
    in_context = refl;
    ends_by = omega arith;
    joined_in = ((omega arith, omega arith), tt);
    read_in = λ out e. absurd cc;
  }
  joined-InTime g caller key (some f) h =
      let k = h f refl in
      record {
        begun = k.begun;
        in_context = k.in_context;
        ends_by = k.ends_by;
        joined_in = ((k.begun, omega arith), k.joined_in);
        read_in = k.read_in;
      }

  pub keeps_call :
      (g : CallGroup T) (caller : ℕ) (key : Text)
      → IsShared g
      → IsShared (do_call timeout caller key g)
  unfolding do_call
  keeps_call g caller key s =
      let w : Waiter = record { caller = caller; since = g.now } in
      record {
        flights =
            set_flights g key (some (joined timeout w (g.in_flight key)))
              (λ f e.
                subst (InTime g.now key) (some_value e)
                  (joined-InTime g caller key (g.in_flight key) (s.flights key)))
              s.flights;
        recents = s.recents;
      }

  found_by-Honest :
      (key : Text) (now : ℕ) (f : InFlight T)
      → f.ends_at ≡ f.started + timeout
      → Honest key f.started now (found_by fn key now f)
  unfolding found_by
  found_by-Honest key now f ends = go (ltb now f.ends_at) refl
    where
      go :
          (b : Bool)
          → ltb now f.ends_at ≡ b
          → Honest key f.started now (if b then fn key now else err (sentinel deadline_exceeded))
      go true h = inl (refl, omega (arith, ltb→lt now f.ends_at h, ends))
      go false h = inr (refl, ground (arith, ends))

  pub keeps_read :
      (g : CallGroup T) (key : Text) (f : InFlight T)
      → g.in_flight key ≡ some f
      → IsShared g
      → IsShared (read_in_flight fn key f g)
  unfolding read_in_flight
  keeps_read g key f e s =
      let k = s.flights key f e in
      let found = found_by fn key g.now f in
      let f' : InFlight T = record f { outcome = some (g.now, found) } in
      let good : InTime g.now key f' = record {
        begun = k.begun;
        in_context = k.in_context;
        ends_by = k.ends_by;
        joined_in = k.joined_in;
        read_in = λ out o.
            subst
              (λ (out : ℕ × Result T).
                (f.started ≤ out.0) × (out.0 ≤ g.now) × Honest key f.started out.0 out.1)
              (some_value o) (k.begun, omega arith, found_by-Honest key g.now f k.in_context);
      } in
      record {
        flights =
            set_flights g key (some f') (λ f'' e. subst (InTime g.now key) (some_value e) good)
              s.flights;
        recents = s.recents;
      }

  pub keeps_give :
      (g : CallGroup T) (key : Text) (f : InFlight T) (out : ℕ × Result T)
      → g.in_flight key ≡ some f
      → f.outcome ≡ some out
      → IsShared g
      → IsShared (give_all key f out g)
  unfolding give_all
  keeps_give g key f out e o s = record {
    flights = set_flights g key none (λ f e. absurd cc) s.flights;
    recents =
        All-append Recent (map (give key f.started g.now out) f.waiters) g.given
          (given_recent f.waiters k.joined_in) s.recents;
  }
    where
      k : InTime g.now key f
      k = s.flights key f e

      given_recent :
          (ws : List Waiter)
          → All (λ (w : Waiter). (f.started ≤ w.since) × (w.since ≤ g.now)) ws
          → All Recent (map (give key f.started g.now out) ws)
      given_recent [] h = tt
      given_recent (w ∷ ws) ((low, high), h) =
          let (after_start, before_now, honest) = k.read_in out o in
          (
            record {
              under_way = low;
              waits_first = high;
              waited = omega (arith, k.ends_by, k.in_context);
              read_in_it = after_start;
              read_before = before_now;
              honest = honest;
            },
            given_recent ws h,
          )

  pub keeps_time :
      (g : CallGroup T)
      → ((key : Text) (f : InFlight T) → g.in_flight key ≡ some f → g.now < f.ends_at)
      → IsShared g
      → IsShared (record g { now = g.now + 1 })
  keeps_time g before s = record { flights = later; recents = s.recents }
    where
      later : (key : Text) (f : InFlight T) → g.in_flight key ≡ some f → InTime (g.now + 1) key f
      later key f e =
          let k = s.flights key f e in
          record {
            begun = omega (arith, k.begun);
            in_context = k.in_context;
            ends_by = omega (arith, before key f e);
            joined_in =
                All-map (λ (w : Waiter). (f.started ≤ w.since) × (w.since ≤ g.now))
                  (λ (w : Waiter). (f.started ≤ w.since) × (w.since ≤ g.now + 1)) f.waiters
                  (λ w h. (h.0, omega (arith, h.1))) k.joined_in;
            read_in = λ out o.
                let (low, high, honest) = k.read_in out o in (low, omega (arith, high), honest);
          }
