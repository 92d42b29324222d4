-- ===== src/Store/Paging.antt =====
-- Keyset pagination: the order of the rows of a listing, and the rows past a cursor.
pub mod Walk
pub mod Client
use storefront.Common.{
  All, All-filter, All-map, Bool, Bool-cases, List, [], arith, false, filter, if◌then◌else◌, inl,
  inr, refl, true, ℕ, ◌∷◌, ◌≡◌, ◌≢◌,
}
use storefront.Store.Sql.Keyset.{ascending, descending, insert_row, order_by}

pub record IsOrder (before : ℕ → ℕ → Bool) : Type 0 where
  pub irrefl : (a : ℕ) → before a a ≡ false
  pub trans : (a b c : ℕ) → before a b ≡ true → before b c ≡ true → before a c ≡ true
  pub total : (a b : ℕ) → before a b ≡ false → a ≢ b → before b a ≡ true

pub ascending-IsOrder : IsOrder ascending
ascending-IsOrder = record {
  irrefl = λ a. ground arith;
  trans = λ a b c h k. ground arith;
  total = λ a b h n. ground arith;
}

pub descending-IsOrder : IsOrder descending
descending-IsOrder = record {
  irrefl = λ a. ground arith;
  trans = λ a b c h k. ground arith;
  total = λ a b h n. ground arith;
}

module _ {A : Type 0} (key : A → ℕ) (before : ℕ → ℕ → Bool) where
  -- strictly in order
  abbrev pub IsSorted : List A → Type 0
  IsSorted [] = Unit
  IsSorted (x ∷ xs) = All (λ y. before (key x) (key y) ≡ true) xs × IsSorted xs

  -- no two rows have one key, as of a primary key
  abbrev pub Distinct : List A → Type 0
  Distinct [] = Unit
  Distinct (x ∷ xs) = All (λ y. key y ≢ key x) xs × Distinct xs

  All-insert_row :
      (P : A → Type 0) (x : A) (ys : List A) → P x → All P ys → All P (insert_row key before x ys)
  unfolding insert_row
  All-insert_row P x [] p h = (p, tt)
  All-insert_row P x (y ∷ ys) p h = ground (arith, All-insert_row P x ys p h.1)

  pub All-order_by : (P : A → Type 0) (xs : List A) → All P xs → All P (order_by key before xs)
  unfolding order_by
  All-order_by P [] h = h
  All-order_by P (x ∷ xs) h =
      All-insert_row P x (order_by key before xs) h.0 (All-order_by P xs h.1)

module _ {A : Type 0} (key : A → ℕ) (before : ℕ → ℕ → Bool) (o : IsOrder before) where
  insert_row-IsSorted :
      (x : A) (ys : List A)
      → All (λ y. key y ≢ key x) ys
      → IsSorted key before ys
      → IsSorted key before (insert_row key before x ys)
  unfolding insert_row
  insert_row-IsSorted x [] d s = (tt, tt)
  insert_row-IsSorted x (y ∷ ys) d s = elim (Bool-cases (before (key y) (key x))) [
    | inl later ↦ rw later (
      All-insert_row key before (λ z. before (key y) (key z) ≡ true) x ys later s.0,
      insert_row-IsSorted x ys d.1 s.1,
    )
    | inr first ↦
        let xy = o.total (key y) (key x) first d.0 in
        rw first (
          (
            xy,
            All-map (λ z. before (key y) (key z) ≡ true) (λ z. before (key x) (key z) ≡ true) ys
                (λ z yz. o.trans (key x) (key y) (key z) xy yz) s.0,
          ),
          s,
        )
  ]

  pub order_by-IsSorted :
      (xs : List A) → Distinct key before xs → IsSorted key before (order_by key before xs)
  unfolding order_by
  order_by-IsSorted [] d = tt
  order_by-IsSorted (x ∷ xs) d =
      insert_row-IsSorted x (order_by key before xs)
        (All-order_by key before (λ y. key y ≢ key x) xs d.0) (order_by-IsSorted xs d.1)

  insert_first :
      (x : A) (ys : List A)
      → All (λ z. before (key z) (key x) ≡ false) ys
      → insert_row key before x ys ≡ x ∷ ys
  unfolding insert_row
  insert_first x [] h = refl
  insert_first x (y ∷ ys) h = rw h.0

  abbrev insert_if : Bool → A → List A → List A
  insert_if b x ys = if b then insert_row key before x ys else ys

  not_before : (a b c : ℕ) → before a b ≡ false → before a c ≡ true → before c b ≡ false
  not_before a b c h k = elim (Bool-cases (before c b)) [
    | inl e ↦ cc (o.trans a c b k e)
    | inr e ↦ e
  ]

  filter-insert_row :
      (p : A → Bool) (x : A) (ys : List A)
      → IsSorted key before ys
      → filter p (insert_row key before x ys) ≡ insert_if (p x) x (filter p ys)
  unfolding insert_row
  filter-insert_row p x [] s = ground arith
  filter-insert_row p x (y ∷ ys) s = elim (Bool-cases (before (key y) (key x))) [
    | inl later ↦ rw later (ground (arith, filter-insert_row p x ys s.1))
    | inr first ↦
        let rest =
          All-filter (λ z. before (key z) (key x) ≡ false) p ys
            (All-map (λ z. before (key y) (key z) ≡ true) (λ z. before (key z) (key x) ≡ false) ys
              (λ z yz. not_before (key y) (key x) (key z) first yz) s.0) in
        rw first (ground (arith, insert_first x (filter p ys) rest))
  ]

  pub filter-order_by :
      (p : A → Bool) (xs : List A)
      → Distinct key before xs
      → order_by key before (filter p xs) ≡ filter p (order_by key before xs)
  unfolding order_by
  filter-order_by p [] d = refl
  filter-order_by p (x ∷ xs) d = ground (
    arith,
    filter-order_by p xs d.1,
    filter-insert_row p x (order_by key before xs) (order_by-IsSorted xs d.1),
  )
