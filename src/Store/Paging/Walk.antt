-- ===== src/Store/Paging/Walk.antt =====
-- Walking a listing page by page, each time from the id of the last row that came.
use storefront.Common.{
  All, Bool, Bool-cases, List, [], ap, append_assoc, arith, drop, false, filter, get_last?, inl,
  inr, leb, length, length-drop, length-take, none, refl, some, subst, suc, sym, take,
  take-append-drop, take_of_length_le, true, zero, ℕ, ◌++◌, ◌+◌, ◌<◌, ◌∙◌, ◌∷◌, ◌≡◌, ◌≤◌,
}
use storefront.Domain.Pages.{Uuid}
use storefront.Store.Paging.{Distinct, IsOrder, IsSorted, filter-order_by, order_by-IsSorted}
use storefront.Store.Sql.Keyset.{order_by, page_rows, past}

-- The rows of a page that was cut from `page`, and those that come with the pages behind its last row.
pub pages_from {ℓ} : {A : Type ℓ} → ℕ → List A → (A → List A) → List A
pages_from limit page more = elim (leb (length page) limit) [
  | true ↦ page
  | false ↦ take limit page ++ elim (get_last? (take limit page)) [ none ↦ [] | some l ↦ more l ]
]

pub pages_from_last {ℓ} :
    {A : Type ℓ} (limit : ℕ) (page : List A) (more : A → List A)
    → leb (length page) limit ≡ true
    → pages_from limit page more ≡ page
unfolding pages_from
pages_from_last limit page more h = ground arith

pub pages_from_more {ℓ} :
    {A : Type ℓ} (limit : ℕ) (page : List A) (more : A → List A) (l : A)
    → leb (length page) limit ≡ false
    → get_last? (take limit page) ≡ some l
    → pages_from limit page more ≡ take limit page ++ more l
unfolding pages_from
pages_from_more limit page more l h e = ground arith

module _ {A : Type 0} (key : A → ℕ) (before : ℕ → ℕ → Bool) where
  -- a page is cut from one row more than its limit, and the next starts behind its last row
  unfoldable pub walk_rows : List A → ℕ → ℕ → Uuid × Bool → List A
  walk_rows rows limit zero c = []
  walk_rows rows limit (suc fuel) c =
      pages_from limit (page_rows key before c (limit + 1) rows)
        (λ l. walk_rows rows limit fuel (key l, true))

module _ {A : Type 0} where
  pub last_of :
      (xs : List A)
      → 0 < length xs
      → (init : List A) × (l : A) × (xs ≡ init ++ l ∷ []) × (get_last? xs ≡ some l)
  last_of [] h = absurd (omega arith)
  last_of (x ∷ []) h = ([], x, refl, refl)
  last_of (x ∷ y ∷ ys) h =
      let r = last_of (y ∷ ys) (omega arith) in (x ∷ r.0, r.1, ap (λ t. x ∷ t) r.2, r.3)

  pub take-take : (n m : ℕ) (xs : List A) → n ≤ m → take n (take m xs) ≡ take n xs
  take-take zero m xs h = refl
  take-take (suc n) zero xs h = absurd (omega arith)
  take-take (suc n) (suc m) [] h = refl
  take-take (suc n) (suc m) (x ∷ xs) h = ap (λ t. x ∷ t) (take-take n m xs (omega arith))

module _ {A : Type 0} (key : A → ℕ) (before : ℕ → ℕ → Bool) (o : IsOrder before) where
  past-All :
      (l : A) (xs : List A)
      → All (λ y. before (key l) (key y) ≡ true) xs
      → filter (past key before (key l, true)) xs ≡ xs
  past-All l [] h = refl
  past-All l (x ∷ xs) h = ground (arith, past-All l xs h.1)

  -- in a sorted table the rows past a row are those behind it
  pub past_row :
      (pre suf : List A) (l : A)
      → IsSorted key before (pre ++ l ∷ suf)
      → filter (past key before (key l, true)) (pre ++ l ∷ suf) ≡ suf
  past_row [] suf l s = ground (arith, o.irrefl (key l), past-All l suf s.0)
  past_row (x ∷ pre) suf l s =
      ground
        (arith, past_row pre suf l s.1, before_last x pre suf l s.0, asymmetric (key x) (key l))
    where
      asymmetric : (a b : ℕ) → before a b ≡ true → before b a ≡ false
      asymmetric a b h = elim (Bool-cases (before b a)) [
        | inl e ↦ cc (o.trans a b a h e, o.irrefl a)
        | inr e ↦ e
      ]

      before_last :
          (x : A) (pre suf : List A) (l : A)
          → All (λ y. before (key x) (key y) ≡ true) (pre ++ l ∷ suf)
          → before (key x) (key l) ≡ true
      before_last x [] suf l h = h.0
      before_last x (y ∷ pre) suf l h = before_last x pre suf l h.1

  module _ (rows : List A) (distinct : Distinct key before rows) (limit : ℕ)
      (some_rows : 0 < limit) where
    abbrev sorted : List A
    sorted = order_by key before rows

    last_page :
        (rest : List A)
        → leb (length (take (limit + 1) rest)) limit ≡ true
        → take (limit + 1) rest ≡ rest
    last_page rest h =
        take_of_length_le (limit + 1) rest (ground (arith, length-take (limit + 1) rest))

    more_rows :
        (rest : List A)
        → leb (length (take (limit + 1) rest)) limit ≡ false
        → 0 < length (take limit rest)
    more_rows rest h = ground (arith, length-take (limit + 1) rest, length-take limit rest)

    shorter :
        (rest : List A)
        → leb (length (take (limit + 1) rest)) limit ≡ false
        → length (drop limit rest) < length rest
    shorter rest h = ground (arith, length-take (limit + 1) rest, length-drop limit rest)

    -- the rows that the next page starts from
    next_rows :
        (pre init rest : List A) (l : A)
        → sorted ≡ pre ++ (init ++ l ∷ rest)
        → order_by key before (filter (past key before (key l, true)) rows) ≡ rest
    next_rows pre init rest l e =
        filter-order_by key before o (past key before (key l, true)) rows distinct
        ∙ ap (filter (past key before (key l, true))) e'
        ∙ past_row (pre ++ init) rest l
            (subst (IsSorted key before) e' (order_by-IsSorted key before o rows distinct))
      where
        e' : sorted ≡ (pre ++ init) ++ l ∷ rest
        e' = e ∙ sym (append_assoc pre init (l ∷ rest))

    walk_suffix :
        (fuel : ℕ) (c : Uuid × Bool) (pre rest : List A)
        → sorted ≡ pre ++ rest
        → order_by key before (filter (past key before c) rows) ≡ rest
        → length rest < fuel
        → walk_rows key before rows limit fuel c ≡ rest
    unfolding walk_rows page_rows
    walk_suffix zero c pre rest e at_c h = absurd (omega arith)
    walk_suffix (suc fuel) c pre rest e at_c h =
        let more = λ (l : A). walk_rows key before rows limit fuel (key l, true) in
        let page = take (limit + 1) rest in
        ap (λ t. pages_from limit (take (limit + 1) t) more) at_c
        ∙ (elim (Bool-cases (leb (length page) limit)) [
          | inl done ↦ pages_from_last limit page more done ∙ last_page rest done
          | inr longer ↦
              let (init, l, split, last) = last_of (take limit rest) (more_rows rest longer) in
              let first = take-take limit (limit + 1) rest (omega arith) in
              let whole : rest ≡ init ++ l ∷ drop limit rest =
                sym (take-append-drop limit rest)
                ∙ ap (λ t. t ++ drop limit rest) split
                ∙ append_assoc init (l ∷ []) (drop limit rest) in
              let e' : sorted ≡ pre ++ (init ++ l ∷ drop limit rest) =
                e ∙ ap (λ t. pre ++ t) whole in
              pages_from_more limit page more l longer (ap get_last? first ∙ last)
              ∙ ap (λ t. t ++ more l) first
              ∙ ap (λ t. take limit rest ++ t)
                  (walk_suffix fuel (key l, true) (pre ++ (init ++ l ∷ [])) (drop limit rest)
                    (e'
                      ∙ ap (λ t. pre ++ t) (sym (append_assoc init (l ∷ []) (drop limit rest)))
                      ∙ sym (append_assoc pre (init ++ l ∷ []) (drop limit rest)))
                    (next_rows pre init (drop limit rest) l e')
                    (ground (arith, shorter rest longer)))
              ∙ take-append-drop limit rest
        ])

    -- every row once, in order
    pub walk_rows-all :
        (fuel : ℕ) (c : Uuid)
        → length sorted < fuel
        → walk_rows key before rows limit fuel (c, false) ≡ sorted
    walk_rows-all fuel c h =
        walk_suffix fuel (c, false) [] sorted refl (ap (order_by key before) (unfiltered rows)) h
      where
        unfiltered : (xs : List A) → filter (past key before (c, false)) xs ≡ xs
        unfiltered [] = refl
        unfiltered (x ∷ xs) = ap (λ t. x ∷ t) (unfiltered xs)
