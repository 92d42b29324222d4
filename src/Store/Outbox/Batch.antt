-- ===== src/Store/Outbox/Batch.antt =====
-- What DrainBatch has done to the tables: internal/store/outbox.go.
use storefront.Common.{
  List, Text, [], ap, arith, codes, inl, inr, is_some, map, none, refl, subst, sym, true, ℕ, ◌∙◌,
  ◌∷◌, ◌≡◌, ◌⊎◌,
}
use storefront.Errors.{Result, err, ok, wrap}
use storefront.Store.Outbox.{
  Answers, Broker, Drained, FailedRow, Failures, Published, bump_attempts, claim_outbox,
  classify_failures, commit_batch, dead_letter, dead_row, delete_outbox, drain_batch, drain_claimed,
  drain_error, drained_batch, failed_id, finish_batch, insert_dead_rows, nothing_due, on_outbox,
  publish_batch, settle_batch,
}
use storefront.Store.Products.{wrapped}
use storefront.Store.Purchases.{Post-wrapped}
use storefront.Store.Schema.{Db, DeadRow, OutboxRow, Sql}
use storefront.Store.Sql.Outbox.{bump_rows, claim_rows, delete_rows, insert_dead}
use storefront.Store.Tx.{
  Fault, World, after_call, exec, fail, lost, next_fault, pass, rollback, ◌>>◌,
}
use storefront.Store.Tx.Post.{Post, Post-bind, Post-exec, Post-mono}

-- the rows of outbox_dead behind deadLetter
unfoldable pub dead_added : List FailedRow → List DeadRow → List DeadRow
dead_added [] dead = dead
dead_added (f ∷ fs) dead = dead_added fs (dead_row f ∷ dead)

-- the rows of outbox behind a settled batch
unfoldable pub left_rows : ℕ → List ℕ → Failures → List OutboxRow → List OutboxRow
left_rows now sent f rows =
    delete_rows (map failed_id f.dead) (bump_rows now f.bump (delete_rows sent rows))

-- the tables behind a settled batch
unfoldable pub settled : ℕ → List ℕ → Failures → Db → Db
settled now sent f db = record db {
  outbox = left_rows now sent f db.outbox;
  dead = dead_added f.dead db.dead;
}

pub delete_rows-nil : (rows : List OutboxRow) → delete_rows [] rows ≡ rows
unfolding delete_rows
delete_rows-nil [] = refl
delete_rows-nil (r ∷ rows) = ap (λ t. r ∷ t) (delete_rows-nil rows)

bump_rows-nil : (now : ℕ) (rows : List OutboxRow) → bump_rows now [] rows ≡ rows
unfolding bump_rows
bump_rows-nil now [] = refl
bump_rows-nil now (r ∷ rows) = ap (λ t. r ∷ t) (bump_rows-nil now rows)

-- one statement, its error wrapped
Post-statement :
    (Q : Unit {0} → World → Type 0) (text : Text) (s : Sql (Unit {0})) (w : World)
    → ((db : Db) → s w.db ≡ ok (tt, db) → Q tt (record (after_call w) { db = db }))
    → Post Q (wrapped text (exec s) w)
Post-statement Q text s w h = Post-wrapped Q text (exec s) w (Post-exec Q s w λ u db e. h db e)

-- the outbox is rewritten, nothing else
abbrev Rewrites : (List OutboxRow → List OutboxRow) → World → Unit {0} → World → Type 0
Rewrites f w u w' = (w'.db ≡ record w.db { outbox = f w.db.outbox }) × (w'.clock ≡ w.clock)

rewritten :
    (f : List OutboxRow → List OutboxRow) (text : Text) (w : World)
    → Post (Rewrites f w) (wrapped text (exec (on_outbox f)) w)
rewritten f text w = Post-statement (Rewrites f w) text (on_outbox f) w λ db e. ground arith

delete_outbox-Rewrites :
    (ids : List ℕ) (w : World) → Post (Rewrites (delete_rows ids) w) (delete_outbox ids w)
unfolding delete_outbox
delete_outbox-Rewrites [] w =
    (ap (λ t. record w.db { outbox = t }) (sym (delete_rows-nil w.db.outbox)), refl)
delete_outbox-Rewrites (id ∷ ids) w = rewritten (delete_rows (id ∷ ids)) (codes "outbox delete") w

bump_attempts-Rewrites :
    (ids : List ℕ) (w : World) → Post (Rewrites (bump_rows w.clock ids) w) (bump_attempts ids w)
unfolding bump_attempts
bump_attempts-Rewrites [] w =
    (ap (λ t. record w.db { outbox = t }) (sym (bump_rows-nil w.clock w.db.outbox)), refl)
bump_attempts-Rewrites (id ∷ ids) w =
    rewritten (bump_rows w.clock (id ∷ ids)) (codes "outbox attempts") w

insert_dead-adds :
    (f : FailedRow) (db db' : Db)
    → insert_dead (dead_row f) db ≡ ok (tt, db')
    → db' ≡ record db { dead = dead_added (f ∷ []) db.dead }
unfolding insert_dead dead_added
insert_dead-adds f db db' e = ground arith

abbrev AddsDead : List FailedRow → World → Unit {0} → World → Type 0
AddsDead fs w u w' = (w'.db ≡ record w.db { dead = dead_added fs w.db.dead }) × (w'.clock ≡ w.clock)

insert_dead_rows-AddsDead :
    (fs : List FailedRow) (w : World) → Post (AddsDead fs w) (insert_dead_rows fs w)
unfolding insert_dead_rows dead_added
insert_dead_rows-AddsDead [] w = (refl, refl)
insert_dead_rows-AddsDead (f ∷ fs) w =
    Post-bind (AddsDead (f ∷ []) w) (AddsDead (f ∷ fs) w)
      (wrapped (codes "outbox dead-letter") (exec (insert_dead (dead_row f))))
      (λ u. insert_dead_rows fs) w
      (Post-statement (AddsDead (f ∷ []) w) (codes "outbox dead-letter") (insert_dead (dead_row f))
        w λ db e. (insert_dead-adds f w.db db e, refl))
      λ u w' added.
        Post-mono (AddsDead fs w') (AddsDead (f ∷ fs) w) (insert_dead_rows fs w')
          (λ v w'' rest. (ground (arith, rest.0, added.0), ground (arith, rest.1, added.1)))
          (insert_dead_rows-AddsDead fs w')

dead_letter-Post :
    (fs : List FailedRow) (w : World)
    → Post
        (λ u w'. w'.db ≡ record w.db {
          outbox = delete_rows (map failed_id fs) w.db.outbox;
          dead = dead_added fs w.db.dead;
        })
        (dead_letter fs w)
unfolding dead_letter
dead_letter-Post fs w =
    Post-bind (AddsDead fs w) Q (insert_dead_rows fs) (λ u. delete_outbox (map failed_id fs)) w
      (insert_dead_rows-AddsDead fs w)
      λ u w' added.
        Post-mono (Rewrites (delete_rows (map failed_id fs)) w') Q
          (delete_outbox (map failed_id fs) w') (λ v w'' rest. ground (arith, rest.0, added.0))
          (delete_outbox-Rewrites (map failed_id fs) w')
  where
    Q : Unit {0} → World → Type 0
    Q u w' = w'.db ≡ record w.db {
      outbox = delete_rows (map failed_id fs) w.db.outbox;
      dead = dead_added fs w.db.dead;
    }

settle_batch-Post :
    (sent : List ℕ) (f : Failures) (w : World)
    → Post (λ u w'. w'.db ≡ settled w.clock sent f w.db) (settle_batch sent f w)
unfolding settled left_rows
settle_batch-Post sent f w =
    Post-bind (Rewrites (delete_rows sent) w) Q (delete_outbox sent)
      (λ u. bump_attempts f.bump >> dead_letter f.dead) w (delete_outbox-Rewrites sent w)
      λ u w' deleted.
        Post-bind (Rewrites (bump_rows w'.clock f.bump) w') Q (bump_attempts f.bump)
          (λ v. dead_letter f.dead) w' (bump_attempts-Rewrites f.bump w')
          λ v w'' bumped.
            Post-mono
              (λ u x. x.db ≡ record w''.db {
                outbox = delete_rows (map failed_id f.dead) w''.db.outbox;
                dead = dead_added f.dead w''.db.dead;
              })
              Q (dead_letter f.dead w'')
              (λ x w3 rest. ground (arith, rest, bumped.0, deleted.0, deleted.1))
              (dead_letter-Post f.dead w'')
  where
    Q : Unit {0} → World → Type 0
    Q u w' = w'.db ≡ settled w.clock sent f w.db

-- the batch that a call claims, and what publishing it yields
unfoldable pub claimed_batch : List ℕ → ℕ → World → List OutboxRow
claimed_batch locked size w = claim_rows w.clock locked size w.db.outbox

-- the call has left the tables and says so by its error, or has left the tables of its batch
abbrev Committed : Db → Db → Drained × World → Type 0
Committed db db' out = ((out.1.db ≡ db) × (is_some out.0.error ≡ true)) ⊎ (out.1.db ≡ db')

commit_batch-Committed :
    (db : Db) (d : Drained) (w : World) → Committed db w.db (commit_batch db d w)
commit_batch-Committed db d w = ground arith

finish_batch-Committed :
    (db db' : Db) (d : Drained) (out : Result (Unit {0}) × World)
    → Post (λ u w'. w'.db ≡ db') out
    → Committed db db' (finish_batch db d out)
finish_batch-Committed db db' d (err e, w) h = inl (refl, refl)
finish_batch-Committed db db' d (ok u, w) h =
    subst (λ (t : Db). Committed db t (commit_batch db d w)) h (commit_batch-Committed db d w)

abbrev pub Outcome : Db → ℕ → ℕ → Published × Broker → (Drained × World) × Broker → Type 0
Outcome db now max_attempts p out =
    ((out.0.1.db ≡ db) × (is_some out.0.0.error ≡ true))
    ⊎ ((out.0.1.db ≡ settled now p.0.sent (classify_failures max_attempts p.0.failed) db)
        × (out.1 ≡ p.1))

abbrev Claimed : List OutboxRow → World → List OutboxRow → World → Type 0
Claimed batch w rows w' = (rows ≡ batch) × (w'.db ≡ w.db) × (w'.clock ≡ w.clock)

claim_outbox-Claimed :
    (locked : List ℕ) (size : ℕ) (w : World)
    → Post (Claimed (claimed_batch locked size w) w) (claim_outbox locked size w)
unfolding claim_outbox claimed_batch
claim_outbox-Claimed locked size w =
    Post-wrapped (Claimed (claimed_batch locked size w) w) (codes "outbox claim") (exec claim) w
      (Post-exec (Claimed (claimed_batch locked size w) w) claim w λ rows db e. ground arith)
  where
    claim : Sql (List OutboxRow)
    claim db = ok (claim_rows w.clock locked size db.outbox, db)

settled_batch :
    (size max_attempts now : ℕ) (batch : List OutboxRow) (p : Published) (db : Db) (w : World)
    → w.db ≡ db
    → w.clock ≡ now
    → let f = classify_failures max_attempts p.failed in
      Committed db
        (settled now p.sent f db)
        (finish_batch db (drained_batch size batch p f.transient) (settle_batch p.sent f w))
settled_batch size max_attempts now batch p db w e t =
    let f = classify_failures max_attempts p.failed in
    finish_batch-Committed db (settled now p.sent f db) (drained_batch size batch p f.transient)
      (settle_batch p.sent f w)
      (Post-mono (λ u w'. w'.db ≡ settled w.clock p.sent f w.db)
        (λ u w'. w'.db ≡ settled now p.sent f db) (settle_batch p.sent f w)
        (λ u w' h. h ∙ (λ i. settled (t i) p.sent f (e i))) (settle_batch-Post p.sent f w))

settled-nothing :
    (now : ℕ) (db : Db) → settled now [] (record { bump = []; dead = []; transient = none }) db ≡ db
unfolding settled left_rows dead_added
settled-nothing now db =
    ap (λ t. record db { outbox = t })
      (ap (λ t. delete_rows [] (bump_rows now [] t)) (delete_rows-nil db.outbox)
        ∙ ap (delete_rows []) (bump_rows-nil now db.outbox)
        ∙ delete_rows-nil db.outbox)

drain_claimed-Outcome :
    (answers : Answers) (size max_attempts : ℕ) (batch : List OutboxRow) (w : World)
    (c : Result (List OutboxRow) × World) (b : Broker)
    → Post (Claimed batch w) c
    → Outcome w.db w.clock max_attempts
        (publish_batch answers batch b)
        (drain_claimed answers size max_attempts w.db c b)
unfolding publish_batch classify_failures
drain_claimed-Outcome answers size max_attempts batch w (err e, w') b h = inl (refl, refl)
drain_claimed-Outcome answers size max_attempts batch w (ok [], w') b h =
    subst
      (λ (rows : List OutboxRow).
        Outcome w.db w.clock max_attempts (publish_batch answers rows b)
          ((nothing_due, rollback w.db w'), b))
      h.0 (inr (sym (settled-nothing w.clock w.db), refl))
drain_claimed-Outcome answers size max_attempts batch w (ok (r ∷ rs), w') b h =
    subst
      (λ (rows : List OutboxRow).
        Outcome w.db w.clock max_attempts (publish_batch answers rows b) out)
      h.0
      (elim (settled_batch size max_attempts w.clock (r ∷ rs) p.0 w.db w' h.1 h.2) [
        | inl untouched ↦ inl untouched
        | inr done ↦ inr (done, refl)
      ])
  where
    p : Published × Broker
    p = publish_batch answers (r ∷ rs) b

    out : (Drained × World) × Broker
    out = drain_claimed answers size max_attempts w.db (ok (r ∷ rs), w') b

-- Whatever call fails, DrainBatch leaves the tables as they were and returns an error, or it has
-- carried out what classifyFailures makes of the claimed batch.
pub drain_batch_outcome :
    (answers : Answers) (locked : List ℕ) (size max_attempts : ℕ) (w : World) (b : Broker)
    → let out = drain_batch answers locked size max_attempts w b in
      let p = publish_batch answers (claimed_batch locked size w) b in
      ((out.0.1.db ≡ w.db) × (is_some out.0.0.error ≡ true))
      ⊎ ((out.0.1.db ≡ settled w.clock p.0.sent (classify_failures max_attempts p.0.failed) w.db)
          × (out.1 ≡ p.1))
unfolding drain_batch claimed_batch
drain_batch_outcome answers locked size max_attempts w b = by_fault (next_fault w.faults)
  where
    batch : List OutboxRow
    batch = claimed_batch locked size w

    by_fault :
        (x : Fault)
        → Outcome w.db w.clock max_attempts (publish_batch answers batch b) (elim x [
          | pass ↦
              drain_claimed answers size max_attempts w.db
                (claim_outbox locked size (after_call w))
                b
          | fail e ↦ ((drain_error (wrap (codes "outbox begin") e), after_call w), b)
          | lost e ↦ ((drain_error (wrap (codes "outbox begin") e), after_call w), b)
        ])
    by_fault pass =
        drain_claimed-Outcome answers size max_attempts batch (after_call w)
          (claim_outbox locked size (after_call w)) b
          (claim_outbox-Claimed locked size (after_call w))
    by_fault (fail e) = inl (refl, refl)
    by_fault (lost e) = inl (refl, refl)
