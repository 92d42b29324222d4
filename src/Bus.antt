-- ===== src/Bus.antt =====
-- internal/bus/bus.go: what the settlement of a message means for the relay.
use storefront.Common.{
  Bool, Option, codes, false, inl, inr, none, refl, some, true, ℕ, ◌↔◌, ◌≡◌, ◌⊎◌,
}
use storefront.Errors.{
  GoError, Result, err, is, message, ok, sentinel, undeliverable, wrap, wrap_both,
}
use storefront.Events.{Record}
use storefront.Store.Outbox.{Answers}

-- rabbitmqamqp.DeliveryState
pub data DeliveryState : Type 0 where
  accepted released rejected modified : DeliveryState

-- What the AMQP client answers: NewMessageWithAddress its error, and Publish its error or the state.
pub record Client : Type 0 where
  pub address : Record → Option GoError
  pub settle : ℕ → Record → Result DeliveryState

abbrev pub not_accepted : GoError
not_accepted = wrap_both (sentinel undeliverable) (message (codes "bus publish not accepted"))

-- `outcomeErr`
unfoldable pub outcome_err : DeliveryState → Option GoError
outcome_err accepted = none
outcome_err released = none
outcome_err rejected = some not_accepted
outcome_err modified = some not_accepted

abbrev pub published_err : Result DeliveryState → Option GoError
published_err (ok state) = outcome_err state
published_err (err e) = some (wrap (codes "bus publish") e)

abbrev pub addressed_err : Option GoError → Result DeliveryState → Option GoError
addressed_err (some e) r = some (wrap_both (sentinel undeliverable) (wrap (codes "bus address") e))
addressed_err none r = published_err r

-- `Publish`, on the n-th call
unfoldable pub publish_message : Client → Answers
publish_message c n r = addressed_err (c.address r) (c.settle n r)

-- what the broker has decided on a message
abbrev pub Takes : Option GoError → Result DeliveryState → Type 0
Takes a r = (a ≡ none) × ((r ≡ ok accepted) ⊎ (r ≡ ok released))

-- the message itself is at fault: its address, or what the broker has done with it
abbrev pub is_poison : Option GoError → Result DeliveryState → Bool
is_poison (some e) r = true
is_poison none (ok accepted) = false
is_poison none (ok released) = false
is_poison none (ok rejected) = true
is_poison none (ok modified) = true
is_poison none (err e) = false

abbrev pub undeliverable_in : Option GoError → Bool
undeliverable_in none = false
undeliverable_in (some e) = is undeliverable e

-- the client's own errors are none of the program's
abbrev pub ForeignResult : Result DeliveryState → Type 0
ForeignResult (ok s) = Unit
ForeignResult (err e) = is undeliverable e ≡ false

-- For a client whose errors of Publish are none of the program's own: Publish returns nil exactly when
-- the message has an address and the broker has accepted or released it, and an error that is
-- ErrUndeliverable, which counts as an attempt, exactly when the address fails or the broker has
-- settled the message in another way; an error of the connection is not ErrUndeliverable.
pub publish_message_iff :
    (c : Client) (n : ℕ) (r : Record)
    → ForeignResult (c.settle n r)
    → ((publish_message c n r ≡ none) ↔ Takes (c.address r) (c.settle n r))
      × (undeliverable_in (publish_message c n r) ≡ is_poison (c.address r) (c.settle n r))
unfolding publish_message outcome_err is
publish_message_iff c n r foreign = go (c.address r) (c.settle n r) foreign
  where
    go :
        (a : Option GoError) (s : Result DeliveryState)
        → ForeignResult s
        → ((addressed_err a s ≡ none) ↔ Takes a s)
          × (undeliverable_in (addressed_err a s) ≡ is_poison a s)
    go (some e) s f = (((λ h. absurd cc), (λ t. absurd cc)), refl)
    go none (ok accepted) f = (((λ h. (refl, inl refl)), (λ t. refl)), refl)
    go none (ok released) f = (((λ h. (refl, inr refl)), (λ t. refl)), refl)
    go none (ok rejected) f =
        (((λ h. absurd cc), (λ t. elim t.1 [ inl e ↦ cc | inr e ↦ cc ])), refl)
    go none (ok modified) f =
        (((λ h. absurd cc), (λ t. elim t.1 [ inl e ↦ cc | inr e ↦ cc ])), refl)
    go none (err x) f = (((λ h. absurd cc), (λ t. elim t.1 [ inl e ↦ cc | inr e ↦ cc ])), f)
