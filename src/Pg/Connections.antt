-- ===== src/Pg/Connections.antt =====
-- The connections that the listener acquires, gives back and closes: internal/pg/listener.go.
use storefront.Common.{
  Bool, List, Option, [], ap, arith, codes, false, if◌then◌else◌, is_some, none, refl, some, true,
  ℕ, ◌+◌, ◌<◌, ◌==◌, ◌∷◌, ◌≡◌, ◌≤◌,
}
use storefront.Errors.{GoError, deadline_exceeded, is, wrap}
use storefront.Pg.{
  Listener, Meets, acquire, acquire_new, await, await_all, closed_with, listen, release,
  wait_failed, wait_on,
}

abbrev pub count : ℕ → List ℕ → ℕ
count c [] = 0
count c (x ∷ xs) = (if x == c then 1 else 0) + count c xs

abbrev pub held : ℕ → Option ℕ → ℕ
held c none = 0
held c (some x) = if x == c then 1 else 0

-- where a connection is: in the listener's hands, back in the pool or closed
abbrev pub places : ℕ → Listener → ℕ
places c l = held c l.conn + (count c l.released + count c l.closed)

-- every connection that was acquired is in one place, and no other is anywhere
pub record IsPlaced (l : Listener) : Type 0 where
  pub one_place : (c : ℕ) → c < l.acquired → places c l ≡ 1
  pub no_other : (c : ℕ) → l.acquired ≤ c → places c l ≡ 0

release-IsPlaced : (l : Listener) → IsPlaced l → IsPlaced (release l)
unfolding release
release-IsPlaced l p = go l.conn refl
  where
    go : (o : Option ℕ) → l.conn ≡ o → IsPlaced (closed_with o l)
    go none e = p
    go (some x) e = record {
      one_place = λ c h. ground (arith, p.one_place c h, e);
      no_other = λ c h. ground (arith, p.no_other c h, e);
    }

release_lem : (l : Listener) → (release l).conn ≡ none
unfolding release
release_lem l = go l.conn refl
  where
    go : (o : Option ℕ) → l.conn ≡ o → (closed_with o l).conn ≡ none
    go none e = e
    go (some x) e = refl

listen-IsPlaced :
    (x : Option GoError) (l : Listener) → IsPlaced l → l.conn ≡ none → IsPlaced (listen x l).1
listen-IsPlaced (some e) l p n = record {
  one_place = λ c h. ground (arith, p.one_place c, p.no_other c);
  no_other = λ c h. ground (arith, p.no_other c);
}
listen-IsPlaced none l p n = record {
  one_place = λ c h. ground (arith, p.one_place c, p.no_other c);
  no_other = λ c h. ground (arith, p.no_other c);
}

-- A call that returns nil holds a connection that listens, and one that returns an error holds none.
pub record Settled (out : Option GoError × Listener) : Type 0 where
  pub placed : IsPlaced out.1
  pub listening : out.0 ≡ none → is_some out.1.conn ≡ true
  pub dropped : (e : GoError) → out.0 ≡ some e → out.1.conn ≡ none

acquire-Settled : (m : Meets) (l : Listener) → IsPlaced l → Settled (acquire m l)
unfolding acquire
acquire-Settled m l p = go l.conn refl
  where
    listened : (x : Option GoError) → l.conn ≡ none → Settled (listen x l)
    listened none n = record {
      placed = listen-IsPlaced none l p n;
      listening = λ h. refl;
      dropped = λ e h. cc;
    }
    listened (some e) n = record {
      placed = listen-IsPlaced (some e) l p n;
      listening = λ h. cc;
      dropped = λ e h. n;
    }

    acquired_new :
        (x : Option GoError)
        → l.conn ≡ none
        → Settled (elim x as (λ y. Option GoError × Listener) [
          | some e ↦ (some (wrap (codes "listen acquire") e), l)
          | none ↦ listen m.listen_error l
        ])
    acquired_new none n = listened m.listen_error n
    acquired_new (some e) n = record { placed = p; listening = λ h. cc; dropped = λ e h. n }

    go :
        (o : Option ℕ)
        → l.conn ≡ o
        → Settled (elim o as (λ y. Option GoError × Listener) [
          | some c ↦ (none, l)
          | none ↦ acquire_new m l
        ])
    go (some c) e = record { placed = p; listening = λ h. ap is_some e; dropped = λ e h. cc }
    go none e = acquired_new m.acquire_error e

gives_up : (e : GoError) (l : Listener) → IsPlaced l → Settled (some e, release l)
gives_up e l p = record {
  placed = release-IsPlaced l p;
  listening = λ h. cc;
  dropped = λ e h. release_lem l;
}

wait_on-Settled :
    (m : Meets) (out : Option GoError × Listener) → Settled out → Settled (wait_on m out)
wait_on-Settled m (some e, l) s = s
wait_on-Settled m (none, l) s = go m.wait_error
  where
    by_deadline :
        (b : Bool) (e : GoError)
        → Settled (if b then (none, l) else (some (wrap (codes "listen wait") e), release l))
    by_deadline true e = s
    by_deadline false e = gives_up (wrap (codes "listen wait") e) l s.placed

    by_context :
        (x : Option GoError) (e : GoError)
        → Settled (elim x as (λ y. Option GoError × Listener) [
          | some stop ↦ (some stop, release l)
          | none ↦
              if is deadline_exceeded e
              then (none, l)
              else (some (wrap (codes "listen wait") e), release l)
        ])
    by_context (some stop) e = gives_up stop l s.placed
    by_context none e = by_deadline (is deadline_exceeded e) e

    go :
        (x : Option GoError)
        → Settled (elim x as (λ y. Option GoError × Listener) [
          | none ↦ (none, l)
          | some e ↦ wait_failed m e l
        ])
    go none = s
    go (some e) = by_context m.ctx_error e

-- Whatever Await meets, it leaves every acquired connection in one place: in the listener's hands, back
-- in the pool, or closed. Behind nil the listener holds a connection that listens, so that wakeups are
-- kept until the next call; behind an error it holds none.
pub await-Settled : (m : Meets) (l : Listener) → IsPlaced l → Settled (await m l)
unfolding await
await-Settled m l p = wait_on-Settled m (acquire m l) (acquire-Settled m l p)

await_all-IsPlaced :
    (ms : List Meets) (l : Listener)
    → IsPlaced l
    → IsPlaced (await_all ms l) × ((await_all ms l).conn ≡ none)
unfolding await_all
await_all-IsPlaced [] l p = (release-IsPlaced l p, release_lem l)
await_all-IsPlaced (m ∷ ms) l p = await_all-IsPlaced ms (await m l).1 (await-Settled m l p).placed

abbrev pub new_listener : Listener
new_listener = record { conn = none; acquired = 0; released = []; closed = [] }

pub new_listener-IsPlaced : IsPlaced new_listener
new_listener-IsPlaced = record {
  one_place = λ c h. absurd (omega (arith, h));
  no_other = λ c h. refl;
}

-- the connection has been given back or closed, once
abbrev pub GivenUp : ℕ → Listener → Type 0
GivenUp c l = count c l.released + count c l.closed ≡ 1

-- A listener that has been closed, after any calls of Await, has given each connection that it had
-- acquired back to the pool or closed it, once.
pub await_all-leaks_nothing :
    (ms : List Meets) (c : ℕ) → let l = await_all ms new_listener in c < l.acquired → GivenUp c l
await_all-leaks_nothing ms c h =
    let (p, none_held) = await_all-IsPlaced ms new_listener new_listener-IsPlaced in
    ground (arith, p.one_place c h, none_held)
