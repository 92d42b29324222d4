-- ===== src/Service/Races/Steps.antt =====
-- The steps of the races, one by one, against their invariant.
use storefront.Common.{
  All, All-map, Bool-cases, List, Option, Text, [], ap, arith, false, inl, inr, ltb, none, refl,
  some, subst, sym, ℕ, ◌++◌, ◌+◌, ◌<◌, ◌∙◌, ◌∷◌, ◌≡◌, ◌≤◌, ◌⊎◌,
}
use storefront.Cache.{CachePlatform, Cell, Entry, get_entry, item, live, new_tombstone, set_cmd}
use storefront.Cache.Laws.{classify_tombstone}
use storefront.Domain.Products.{Product}
use storefront.Service.Races.{Flight, Race, fill_ttl}
use storefront.Service.Races.Kept.{
  All-in, All-out, FreshCell-later, Good, Harmless, Kept, Missed, NotYet, absent_key, blocked,
  Blocked-set_cmd, current, hit-NotYet, hit_differs, not_loaded, read-Missed, tombstone_differs,
  unread,
}
use storefront.Service.Reads.{Fills, Fills-hit, FreshCell, item-FreshCell, set_cmd-cases}

item_bytes : {a b : Text} {s t : ℕ} → item a s ≡ item b t → b ≡ a
item_bytes {a} e = sym (ap (λ (x : Cell). elim x [ none ↦ a | some i ↦ i.bytes ]) e)

tombstone_text :
    (c : CachePlatform) (m n : ℕ)
    → new_tombstone c m ≡ new_tombstone c n
    → c.rand_text m ≡ c.rand_text n
unfolding new_tombstone
tombstone_text c m n e = ap (λ (t : Text). elim t [ [] ↦ [] | b ∷ s ↦ s ]) e

tombstone-FreshCell :
    (c : CachePlatform) (row : Option Product) (now expires_at n : ℕ)
    → FreshCell c row now (item (new_tombstone c n) expires_at)
unfolding live
tombstone-FreshCell c row now expires_at n = elim (Bool-cases (ltb now expires_at)) [
  | inl e ↦ rw e (λ hit. absurd (cc (hit, ap (λ (x : Entry). x.hit) (classify_tombstone c n))))
  | inr e ↦ rw e (λ hit. absurd cc)
]

module _ (c : CachePlatform) (load_timeout : ℕ) where
  Missed-later : (n : ℕ) (prev : Entry) → Missed c n prev → Missed c (n + 1) prev
  Missed-later n prev (absent_key) = absent_key
  Missed-later n prev (unread raw miss later) = unread raw miss λ m le. later m (omega arith)

  pub keeps_commit :
      (r : Race) (row : Option Product)
      → Kept c load_timeout r
      → Kept c load_timeout (record r { row = row; pending = r.pending + 1 })
  keeps_commit r row k = record {
    known = k.known;
    good =
        All-map (Good c load_timeout r)
          (Good c load_timeout (record r { row = row; pending = r.pending + 1 })) r.flights
          (λ f g. record {
            started = g.started;
            missed = g.missed;
            harmless = λ p. absurd (omega arith);
          })
          k.good;
    fresh = λ p. absurd (omega arith);
  }

  pub keeps_wait :
      (r : Race) → Kept c load_timeout r → Kept c load_timeout (record r { now = r.now + 1 })
  keeps_wait r k = record {
    known = k.known;
    good =
        All-map (Good c load_timeout r) (Good c load_timeout (record r { now = r.now + 1 }))
          r.flights
          (λ f g. record {
            started = omega (arith, g.started);
            missed = g.missed;
            harmless = g.harmless;
          })
          k.good;
    fresh = λ p. FreshCell-later c r.row r.now r.cell (k.fresh p);
  }

  pub keeps_invalidate :
      (r : Race) (n : ℕ)
      → ((i j : ℕ) → c.rand_text i ≡ c.rand_text j → i ≡ j)
      → load_timeout ≤ c.ttl
      → Kept c load_timeout r
      → Kept c load_timeout (record r {
        cell = item (new_tombstone c r.drawn) (r.now + c.ttl);
        drawn = r.drawn + 1;
        pending = n;
      })
  keeps_invalidate r n random long k = record {
    known = λ bytes at e m le same_text.
        let i = random r.drawn m (tombstone_text c r.drawn m (sym (item_bytes e) ∙ same_text)) in
        absurd (omega (arith, i));
    good =
        All-map (Good c load_timeout r)
          (Good c load_timeout (record r {
            cell = item (new_tombstone c r.drawn) (r.now + c.ttl);
            drawn = r.drawn + 1;
            pending = n;
          }))
          r.flights
          (λ f g. record {
            started = g.started;
            missed = Missed-later r.drawn f.prev g.missed;
            harmless = λ p. blocked (record {
              bytes = new_tombstone c r.drawn;
              expires_at = r.now + c.ttl;
              there = refl;
              outlives = omega (arith, g.started);
              differs = tombstone_differs c r.drawn f.prev g.missed;
            });
          })
          k.good;
    fresh = λ p. tombstone-FreshCell c r.row r.now (r.now + c.ttl) r.drawn;
  }

  pub keeps_begin :
      (r : Race)
      → (get_entry c (live r.now r.cell)).hit ≡ false
      → Kept c load_timeout r
      → Kept c load_timeout (record r {
        flights =
            record { began = r.now; prev = get_entry c (live r.now r.cell); loaded = none }
            ∷ r.flights;
      })
  keeps_begin r miss k = record {
    known = k.known;
    good = (
      record {
        started = omega arith;
        missed = read-Missed c r.drawn r.now r.cell k.known miss;
        harmless = λ p. not_loaded refl;
      },
      regood (λ f g. record { started = g.started; missed = g.missed; harmless = g.harmless })
          k.good,
    );
    fresh = k.fresh;
  }
    where
      regood :
          {P Q : Flight → Type 0} → ((f : Flight) → P f → Q f) → All P r.flights → All Q r.flights
      regood {P} {Q} h = All-map P Q r.flights h

  -- the other flights, with other flights in the list
  flights-Good :
      (r : Race) (fs gs : List Flight)
      → All (Good c load_timeout r) fs
      → All (Good c load_timeout (record r { flights = gs })) fs
  flights-Good r fs gs h =
      All-map (Good c load_timeout r) (Good c load_timeout (record r { flights = gs })) fs
        (λ f g. record { started = g.started; missed = g.missed; harmless = g.harmless }) h

  pub keeps_load :
      (r : Race) (pre post : List Flight) (f : Flight)
      → r.flights ≡ pre ++ f ∷ post
      → Kept c load_timeout r
      → Kept c load_timeout (record r { flights = pre ++ record f { loaded = some r.row } ∷ post })
  keeps_load r pre post f e k =
      let g' = record f { loaded = some r.row } in
      let out =
        All-out (Good c load_timeout r) pre post f (subst (All (Good c load_timeout r)) e k.good) in
      record {
        known = k.known;
        good =
            All-in (Good c load_timeout (record r { flights = pre ++ g' ∷ post })) pre post g'
              (record {
                started = out.0.started;
                missed = out.0.missed;
                harmless = λ p. current refl;
              })
              (flights-Good r (pre ++ post) (pre ++ g' ∷ post) out.1);
        fresh = k.fresh;
      }

  pub keeps_end :
      (r : Race) (pre post : List Flight) (f : Flight)
      → r.flights ≡ pre ++ f ∷ post
      → Kept c load_timeout r
      → Kept c load_timeout (record r { flights = pre ++ post })
  keeps_end r pre post f e k = record {
    known = k.known;
    good =
        flights-Good r (pre ++ post) (pre ++ post)
          (All-out (Good c load_timeout r) pre post f
            (subst (All (Good c load_timeout r)) e k.good)).1;
    fresh = k.fresh;
  }

  module _ (r : Race) (f : Flight) (row : Option Product) (value : Text)
      (loaded : f.loaded ≡ some row) (value_of : Fills c row value)
      (in_time : r.now < f.began + load_timeout) where
    abbrev filled : Cell
    filled = set_cmd r.now value (fill_ttl c row) f.prev r.cell

    -- the guard lets only the current row pass
    fill_effect :
        Harmless load_timeout r.row r.cell f
        → (filled ≡ r.cell) ⊎ ((filled ≡ item value (r.now + fill_ttl c row)) × (row ≡ r.row))
    fill_effect (not_loaded e) = absurd (cc (e, loaded))
    fill_effect (current e) = elim (set_cmd-cases r.now value (fill_ttl c row) f.prev r.cell) [
      | inl h ↦ inl h
      | inr h ↦ inr (h, loaded_row)
    ]
      where
        loaded_row : row ≡ r.row
        loaded_row = ap (λ o. elim o [ none ↦ row | some x ↦ x ]) (sym loaded ∙ e)
    fill_effect (blocked b) =
        inl (Blocked-set_cmd load_timeout r.now (fill_ttl c row) value f r.cell in_time b)

    filled_known :
        ((bytes : Text) (at : ℕ) → r.cell ≡ item bytes at → NotYet c r.drawn bytes)
        → (bytes : Text) (at : ℕ) → filled ≡ item bytes at
        → NotYet c r.drawn bytes
    filled_known known bytes at e =
        elim (set_cmd-cases r.now value (fill_ttl c row) f.prev r.cell) [
          | inl h ↦ known bytes at (sym h ∙ e)
          | inr h ↦
              subst (NotYet c r.drawn) (sym (item_bytes (sym h ∙ e)))
                (hit-NotYet c r.drawn value (Fills-hit c row value value_of))
        ]

    filled-Harmless :
        (g : Flight)
        → load_timeout ≤ fill_ttl c row
        → g.began ≤ r.now
        → Missed c r.drawn g.prev
        → Harmless load_timeout r.row r.cell f
        → Harmless load_timeout r.row r.cell g
        → Harmless load_timeout r.row filled g
    filled-Harmless g long started missed hf hg = elim (fill_effect hf) [
      | inl h ↦ subst (λ (x : Cell). Harmless load_timeout r.row x g) (sym h) hg
      | inr h ↦ blocked (record {
        bytes = value;
        expires_at = r.now + fill_ttl c row;
        there = h.0;
        outlives = omega (arith, started, long);
        differs = hit_differs c r.drawn value g.prev missed (Fills-hit c row value value_of);
      })
    ]

    filled_fresh :
        Harmless load_timeout r.row r.cell f
        → FreshCell c r.row r.now r.cell
        → FreshCell c r.row r.now filled
    filled_fresh hf fresh = elim (fill_effect hf) [
      | inl h ↦ subst (FreshCell c r.row r.now) (sym h) fresh
      | inr h ↦ subst (FreshCell c r.row r.now) (sym h.0) (
          item-FreshCell c r.row r.now (r.now + fill_ttl c row) value
            (subst (λ o. Fills c o value) h.1 value_of))
    ]

    pub keeps_fill :
        (pre post : List Flight)
        → r.flights ≡ pre ++ f ∷ post
        → load_timeout ≤ fill_ttl c row
        → Kept c load_timeout r
        → Kept c load_timeout (record r { cell = filled; flights = pre ++ post })
    keeps_fill pre post e long k =
        let out =
          All-out (Good c load_timeout r) pre post f
            (subst (All (Good c load_timeout r)) e k.good) in
        record {
          known = filled_known k.known;
          good =
              All-map (Good c load_timeout r)
                (Good c load_timeout (record r { cell = filled; flights = pre ++ post }))
                (pre ++ post)
                (λ g h. record {
                  started = h.started;
                  missed = h.missed;
                  harmless = λ p.
                      filled-Harmless g long h.started h.missed (out.0.harmless p) (h.harmless p);
                })
                out.1;
          fresh = λ p. filled_fresh (out.0.harmless p) (k.fresh p);
        }
