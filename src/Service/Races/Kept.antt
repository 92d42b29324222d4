-- ===== src/Service/Races/Kept.antt =====
-- The invariant of the races: a flight with an old row, and the token that its fill has to find.
use storefront.Common.{
  All, Bool-cases, List, Option, Text, [], ap, arith, false, if◌then◌else◌, inl, inr, ltb, none,
  refl, some, subst, sym, text_eq, text_eq_sound, true, ℕ, ◌++◌, ◌+◌, ◌<◌, ◌∙◌, ◌∷◌, ◌≡◌, ◌≢◌, ◌≤◌,
}
use storefront.Cache.{
  CachePlatform, Cell, Entry, classify, empty_entry, get_entry, item, live, new_tombstone, set_cmd,
  unread_entry,
}
use storefront.Cache.Laws.{classify_tombstone, token_of_unread}
use storefront.Domain.Products.{Product}
use storefront.Service.{product_from}
use storefront.Service.Races.{Flight, Race}
use storefront.Service.Reads.{FreshCell, answer}

-- no tombstone of a later random text
abbrev pub NotYet : CachePlatform → ℕ → Text → Type 0
NotYet c n raw = (m : ℕ) → n ≤ m → raw ≢ new_tombstone c m

-- what a flight has read, without a hit
pub data Missed (c : CachePlatform) (drawn : ℕ) : Entry → Type 0 where
  absent_key : Missed c drawn empty_entry
  unread :
      (raw : Text)
      → (classify c raw).hit ≡ false
      → NotYet c drawn raw
      → Missed c drawn (unread_entry raw)

-- the guard fails as long as the flight may fill
pub record Blocked (load_timeout : ℕ) (f : Flight) (cell : Cell) : Type 0 where
  pub bytes : Text
  pub expires_at : ℕ
  pub there : cell ≡ item bytes expires_at
  pub outlives : f.began + load_timeout ≤ expires_at
  pub differs : bytes ≢ f.prev.token

-- a flight that may not do harm
pub data Harmless (load_timeout : ℕ) (row : Option Product) (cell : Cell) (f : Flight)
    : Type 0 where
  not_loaded : f.loaded ≡ none → Harmless load_timeout row cell f
  current : f.loaded ≡ some row → Harmless load_timeout row cell f
  blocked : Blocked load_timeout f cell → Harmless load_timeout row cell f

pub record Good (c : CachePlatform) (load_timeout : ℕ) (r : Race) (f : Flight) : Type 0 where
  pub started : f.began ≤ r.now
  pub missed : Missed c r.drawn f.prev
  pub harmless : r.pending ≡ 0 → Harmless load_timeout r.row r.cell f

pub record Kept (c : CachePlatform) (load_timeout : ℕ) (r : Race) : Type 0 where
  pub known : (bytes : Text) (at : ℕ) → r.cell ≡ item bytes at → NotYet c r.drawn bytes
  pub good : All (Good c load_timeout r) r.flights
  pub fresh : r.pending ≡ 0 → FreshCell c r.row r.now r.cell

module _ {A : Type 0} (P : A → Type 0) where
  pub All-out : (pre post : List A) (x : A) → All P (pre ++ x ∷ post) → P x × All P (pre ++ post)
  All-out [] post x h = h
  All-out (y ∷ pre) post x h = let rest = All-out pre post x h.1 in (rest.0, (h.0, rest.1))

  pub All-in : (pre post : List A) (x : A) → P x → All P (pre ++ post) → All P (pre ++ x ∷ post)
  All-in [] post x p h = (p, h)
  All-in (y ∷ pre) post x p h = (h.0, All-in pre post x p h.1)

text_differs : (s t : Text) → s ≢ t → text_eq s t ≡ false
text_differs s t n = elim (Bool-cases (text_eq s t)) [
  | inl e ↦ absurd (n (text_eq_sound s t e))
  | inr e ↦ e
]

pub Blocked-set_cmd :
    (load_timeout now ttl : ℕ) (value : Text) (f : Flight) (cell : Cell)
    → now < f.began + load_timeout
    → Blocked load_timeout f cell
    → set_cmd now value ttl f.prev cell ≡ cell
unfolding set_cmd live
Blocked-set_cmd load_timeout now ttl value f cell h b =
    subst (λ (x : Cell). set_cmd now value ttl f.prev x ≡ x) (sym b.there)
      (ground (arith, text_differs b.bytes f.prev.token b.differs, b.outlives))

-- a hit is no tombstone, and no token of a flight
pub hit-NotYet :
    (c : CachePlatform) (n : ℕ) (value : Text) → (classify c value).hit ≡ true → NotYet c n value
hit-NotYet c n value h m le e =
    cc (h, ap (λ t. (classify c t).hit) e, ap (λ (x : Entry). x.hit) (classify_tombstone c m))

pub hit_differs :
    (c : CachePlatform) (drawn : ℕ) (value : Text) (prev : Entry)
    → Missed c drawn prev
    → (classify c value).hit ≡ true
    → value ≢ prev.token
unfolding classify
hit_differs c drawn value prev (absent_key) h e = cc (h, ap (λ t. (classify c t).hit) e)
hit_differs c drawn value prev (unread raw miss later) h e =
    cc (h, miss, ap (λ t. (classify c t).hit) e)

pub tombstone_differs :
    (c : CachePlatform) (drawn : ℕ) (prev : Entry)
    → Missed c drawn prev
    → new_tombstone c drawn ≢ prev.token
unfolding new_tombstone
tombstone_differs c drawn prev (absent_key) e = cc
tombstone_differs c drawn prev (unread raw miss later) e = later drawn (omega arith) (sym e)

pub read-Missed :
    (c : CachePlatform) (drawn now : ℕ) (cell : Cell)
    → ((bytes : Text) (at : ℕ) → cell ≡ item bytes at → NotYet c drawn bytes)
    → (get_entry c (live now cell)).hit ≡ false
    → Missed c drawn (get_entry c (live now cell))
unfolding live
read-Missed c drawn now none known h = absent_key
read-Missed c drawn now (some i) known h = elim (Bool-cases (ltb now i.expires_at)) [
  | inl e ↦
      let miss : (classify c i.bytes).hit ≡ false =
        ap (λ b. (get_entry c (if b then some i.bytes else none)).hit) (sym e) ∙ h in
      rw e (
        subst (Missed c drawn) (sym (token_of_unread c i.bytes miss))
          (unread i.bytes miss (known i.bytes i.expires_at refl)))
  | inr e ↦ rw e absent_key
]

pub FreshCell-later :
    (c : CachePlatform) (row : Option Product) (now : ℕ) (cell : Cell)
    → FreshCell c row now cell
    → FreshCell c row (now + 1) cell
unfolding live
FreshCell-later c row now none h = h
FreshCell-later c row now (some i) h = elim (Bool-cases (ltb (now + 1) i.expires_at)) [
  | inl e ↦
      let still : ltb now i.expires_at ≡ true = ground arith in
      rw e (
        subst
          (λ b.
            (get_entry c (if b then some i.bytes else none)).hit ≡ true
            → product_from (get_entry c (if b then some i.bytes else none)) ≡ answer row)
          still h)
  | inr e ↦ rw e (λ hit. absurd cc)
]
