-- ===== src/Store/Tx/Post.antt =====
-- What holds after a transaction's step that returned: one rule for each way to build a step.
use storefront.Common.{Bool, false, if◌then◌else◌, refl, subst, true, ◌≡◌}
use storefront.Errors.{Result, err, ok, ok_injective}
use storefront.Store.Schema.{Db, Sql}
use storefront.Store.Tx.{
  Fault, Tx, World, after_call, exec, fail, lost, next_fault, pass, settle, ◌>>=◌,
}

-- Nothing is said of a step that failed, since its transaction is taken back.
abbrev pub Post : {A : Type 0} → (A → World → Type 0) → Result A × World → Type 0
Post Q (ok a, w) = Q a w
Post Q (err e, w) = Unit

module _ {A : Type 0} where
  pub Post-mono :
      (P Q : A → World → Type 0) (out : Result A × World)
      → ((a : A) (w : World) → P a w → Q a w)
      → Post P out
      → Post Q out
  Post-mono P Q (ok a, w) f h = f a w h
  Post-mono P Q (err e, w) f h = tt

  pub Post-if :
      (Q : A → World → Type 0) (b : Bool) (m n : Result A × World)
      → Post Q m
      → Post Q n
      → Post Q (if b then m else n)
  Post-if Q true m n h k = h
  Post-if Q false m n h k = k

  pub Post-test :
      (Q : A → World → Type 0) (b : Bool) (m n : Tx A) (w : World)
      → (b ≡ true → Post Q (m w))
      → (b ≡ false → Post Q (n w))
      → Post Q ((if b then m else n) w)
  Post-test Q true m n w h k = h refl
  Post-test Q false m n w h k = k refl

  pub Post-exec :
      (Q : A → World → Type 0) (s : Sql A) (w : World)
      → ((a : A) (db : Db) → s w.db ≡ ok (a, db) → Q a (record (after_call w) { db = db }))
      → Post Q (exec s w)
  unfolding exec
  Post-exec Q s w f = by_fault (next_fault w.faults)
    where
      ran : (r : Result (A × Db)) → s w.db ≡ r → Post Q (settle r (after_call w))
      ran (ok (a, db)) e = f a db e
      ran (err x) e = tt

      by_fault :
          (b : Fault)
          → Post Q (elim b [
            | pass ↦ settle (s w.db) (after_call w)
            | fail e ↦ (err e, after_call w)
            | lost e ↦ (err e, after_call w)
          ])
      by_fault pass = ran (s w.db) refl
      by_fault (fail e) = tt
      by_fault (lost e) = tt

module _ {A B : Type 0} where
  pub Post-bind :
      (P : A → World → Type 0) (Q : B → World → Type 0) (m : Tx A) (f : A → Tx B) (w : World)
      → Post P (m w)
      → ((a : A) (w' : World) → P a w' → Post Q (f a w'))
      → Post Q ((m >>= f) w)
  Post-bind P Q m f w h k = go (m w) h
    where
      go :
          (out : Result A × World)
          → Post P out
          → Post Q (let (r, w') = out in elim r [ ok a ↦ f a w' | err e ↦ (err e, w') ])
      go (ok a, w') h = k a w' h
      go (err e, w') h = tt

module _ {A B : Type 0} (Q : B → World → Type 0) where
  pub Post-exec-bind :
      (s : Sql A) (f : A → Tx B) (w : World)
      → ((a : A) (db : Db) → s w.db ≡ ok (a, db) → Post Q (f a (record (after_call w) { db = db })))
      → Post Q ((exec s >>= f) w)
  Post-exec-bind s f w k =
      Post-bind (λ a w'. Post Q (f a w')) Q (exec s) f w (Post-exec (λ a w'. Post Q (f a w')) s w k)
        (λ a w' h. h)

  pub Post-result-bind :
      (m : Tx A) (f : A → Tx B) (w : World)
      → ((a : A) (w' : World) → m w ≡ (ok a, w') → Post Q (f a w'))
      → Post Q ((m >>= f) w)
  Post-result-bind m f w k = go (m w) refl
    where
      go :
          (out : Result A × World)
          → m w ≡ out
          → Post Q (let (r, w') = out in elim r [ ok a ↦ f a w' | err e ↦ (err e, w') ])
      go (ok a, w') e = k a w' e
      go (err x, w') e = tt

-- A statement about every run that returns, from the rule for its step.
pub Post-at :
    {A : Type 0} (Q : A → World → Type 0) (out : Result A × World) (a : A)
    → Post Q out
    → out.0 ≡ ok a
    → Q a out.1
Post-at Q (ok b, w) a h e = subst (λ x. Q x w) (ok_injective b a e) h
Post-at Q (err x, w) a h e = cc
