-- ===== src/Service/CallGroup/Owed.antt =====
-- What a caller of Do is owed, a flight or its result: internal/service/callgroup.go.
use storefront.Common.{
  Bool, List, Option, Text, [], ap, false, if◌then◌else◌, inl, inr, map, none, refl, some,
  some_value, subst, sym, text_eq, text_eq_refl, text_eq_sound, true, ℕ, ◌++◌, ◌∙◌, ◌∷◌, ◌≡◌, ◌⊎◌,
}
use storefront.Errors.{Result}
use storefront.Service.CallGroup.{
  CallGroup, Given, GroupRun, GroupStep, InFlight, Waiter, calls, do_call, found_by, give, give_all,
  gives, joined, no_step, one_more, passes_time, read_in_flight, reads, set_flight,
}
use storefront.Service.CallGroup.Shared.{Among, Among-append-right, Among-map-left, here, there}
use storefront.Store.Sql.Keys.{is_key}

module _ {T : Type 0} (fn : Text → ℕ → Result T) (timeout : ℕ) (w : Waiter) (k : Text) where
  abbrev Waits : Option (InFlight T) → Type 0
  Waits o = (f : InFlight T) × (o ≡ some f) × Among w f.waiters

  abbrev pub HasResult : CallGroup T → Type 0
  HasResult g = (a : Given T) × Among a g.given × (a.waiter ≡ w) × (a.key ≡ k)

  -- the caller waits for a flight of its key, or has got a result
  abbrev pub Owed : CallGroup T → Type 0
  Owed g = Waits (g.in_flight k) ⊎ HasResult g

  set_flight-Waits :
      (key : Text) (o : Option (InFlight T)) (flights : Text → Option (InFlight T))
      → Waits (flights k)
      → (key ≡ k → Waits o)
      → Waits (set_flight key o flights k)
  set_flight-Waits key o flights old new = go (text_eq key k) refl
    where
      go : (b : Bool) → text_eq key k ≡ b → Waits (if b then o else flights k)
      go true m = new (text_eq_sound key k m)
      go false m = old

  same_flight :
      (g : CallGroup T) (key : Text) (f f' : InFlight T)
      → g.in_flight key ≡ some f
      → g.in_flight k ≡ some f'
      → key ≡ k
      → f' ≡ f
  same_flight g key f f' e e' same_key = some_value (sym e' ∙ ap g.in_flight (sym same_key) ∙ e)

  do_call-Owed :
      (g : CallGroup T) (caller : ℕ) (key : Text) → Owed g → Owed (do_call timeout caller key g)
  unfolding do_call
  do_call-Owed g caller key (inl (f, e, m)) =
      let w' : Waiter = record { caller = caller; since = g.now } in
      inl (
        set_flight-Waits key (some (joined timeout w' (g.in_flight key))) g.in_flight (f, e, m)
          (λ same_key. (
            joined timeout w' (some f),
            ap (λ o. some (joined timeout w' o)) (ap g.in_flight same_key ∙ e),
            there w' f.waiters m,
          )))
  do_call-Owed g caller key (inr h) = inr h

  read_in_flight-Owed :
      (g : CallGroup T) (key : Text) (f : InFlight T)
      → g.in_flight key ≡ some f
      → Owed g
      → Owed (read_in_flight fn key f g)
  unfolding read_in_flight
  read_in_flight-Owed g key f e (inl (f', e', m)) =
      let f'' : InFlight T = record f { outcome = some (g.now, found_by fn key g.now f) } in
      inl (
        set_flight-Waits key (some f'') g.in_flight (f', e', m)
          (λ same_key. (
            f'',
            refl,
            subst (λ (x : InFlight T). Among w x.waiters) (same_flight g key f f' e e' same_key) m,
          )))
  read_in_flight-Owed g key f e (inr h) = inr h

  give_all-Owed :
      (g : CallGroup T) (key : Text) (f : InFlight T) (out : ℕ × Result T)
      → g.in_flight key ≡ some f
      → Owed g
      → Owed (give_all key f out g)
  unfolding give_all
  give_all-Owed g key f out e (inr (a, m, at, same_key)) =
      inr (
        a,
        Among-append-right (map (give key f.started g.now out) f.waiters) g.given m,
        at,
        same_key,
      )
  give_all-Owed g key f out e (inl (f', e', m)) = go (text_eq key k) refl
    where
      go :
          (b : Bool)
          → text_eq key k ≡ b
          → Waits (if b then none else g.in_flight k)
            ⊎ HasResult
                (record g { given = map (give key f.started g.now out) f.waiters ++ g.given })
      go true is_key =
          let same_key = text_eq_sound key k is_key in
          let m' =
            subst (λ (x : InFlight T). Among w x.waiters) (same_flight g key f f' e e' same_key)
              m in
          inr (
            give key f.started g.now out w,
            Among-map-left (give key f.started g.now out) f.waiters g.given m',
            refl,
            same_key,
          )
      go false is_key = inl (f', e', m)

  GroupStep-Owed : (g h : CallGroup T) → GroupStep fn timeout g h → Owed g → Owed h
  GroupStep-Owed _ _ (calls g caller key) o = do_call-Owed g caller key o
  GroupStep-Owed _ _ (reads g key f e n) o = read_in_flight-Owed g key f e o
  GroupStep-Owed _ _ (gives g key f out e n) o = give_all-Owed g key f out e o
  GroupStep-Owed _ _ (passes_time g before) (inl h) = inl h
  GroupStep-Owed _ _ (passes_time g before) (inr h) = inr h

  pub GroupRun-Owed : (g h : CallGroup T) → GroupRun fn timeout g h → Owed g → Owed h
  GroupRun-Owed _ _ (no_step g) o = o
  GroupRun-Owed _ _ (one_more g h j before step) o =
      GroupStep-Owed h j step (GroupRun-Owed g h before o)

  pub entered :
      (g : CallGroup T) (caller : ℕ)
      → w ≡ record { caller = caller; since = g.now }
      → Owed (do_call timeout caller k g)
  unfolding do_call
  entered g caller e = inl (rw (text_eq_refl k) (joined_now (g.in_flight k)))
    where
      now_w : Waiter
      now_w = record { caller = caller; since = g.now }

      is_first : (ws : List Waiter) → Among w (now_w ∷ ws)
      is_first ws = subst (λ x. Among w (x ∷ ws)) e (here ws)

      joined_now : (o : Option (InFlight T)) → Waits (some (joined timeout now_w o))
      joined_now none = (joined timeout now_w none, refl, is_first [])
      joined_now (some f) = (joined timeout now_w (some f), refl, is_first f.waiters)

  -- a run from here, in which no time passes, at whose end the caller has its result
  abbrev pub CanEnd : CallGroup T → Type 0
  CanEnd g = (h : CallGroup T) × GroupRun fn timeout g h × HasResult h × (h.now ≡ g.now)

  given_now :
      (g h : CallGroup T) (f : InFlight T) (out : ℕ × Result T)
      → GroupRun fn timeout g h
      → h.now ≡ g.now
      → h.in_flight k ≡ some f
      → f.outcome ≡ some out
      → Among w f.waiters
      → CanEnd g
  unfolding give_all
  given_now g h f out before same_time e o m = (
    give_all k f out h,
    one_more g h (give_all k f out h) before (gives h k f out e o),
    (
      give k f.started h.now out w,
      Among-map-left (give k f.started h.now out) f.waiters h.given m,
      refl,
      refl,
    ),
    same_time,
  )

  read_and_given :
      (g : CallGroup T) (f : InFlight T)
      → g.in_flight k ≡ some f
      → f.outcome ≡ none
      → Among w f.waiters
      → CanEnd g
  unfolding read_in_flight
  read_and_given g f e n m =
      let out : ℕ × Result T = (g.now, found_by fn k g.now f) in
      let f' : InFlight T = record f { outcome = some out } in
      given_now g (read_in_flight fn k f g) f' out
        (one_more g g (read_in_flight fn k f g) (no_step g) (reads g k f e n)) refl
        (rw (text_eq_refl k)) refl m

  pub can_end : (g : CallGroup T) → Owed g → CanEnd g
  can_end g (inr h) = (g, no_step g, h, refl)
  can_end g (inl (f, e, m)) = go f.outcome refl
    where
      go : (o : Option (ℕ × Result T)) → f.outcome ≡ o → CanEnd g
      go none n = read_and_given g f e n m
      go (some out) o = given_now g g f out (no_step g) refl e o m
