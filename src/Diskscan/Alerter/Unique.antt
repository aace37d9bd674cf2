-- ===== src/Diskscan/Alerter/Unique.antt =====
-- The constraint `UNIQUE` of the database is never violated.
use ctguard.Base.{
  ℕ, ◌≡◌, refl, sym, Bool, true, false, not, ◌||◌, List, [], ◌∷◌, ◌++◌, Option, none, some,
  Option-cases, Bool-cases, inl, inr, Bytes, beq, beq_iff, length, leb, lookup, assign,
  lookup-assign, remove_key, lookup-remove_key, text_key, ok, arith, before, All, Post, Post-bind,
  Post-if, if-both, Outcome-cases,
}
use mathlib.Core.Path.{subst}
use ctguard.Base.Sorted.{Behind, Sorted, assign-Sorted, before_distinct}
use ctguard.Diskscan.Flags.{Flags}
use ctguard.Diskscan.FileData.{FileData}
use ctguard.Diskscan.Alerts.{Row, is_changed}
use ctguard.Diskscan.Alerter.{
  Database, DbError, Alerter, Effects, Round, Step, fresh_alerter, insert_row, row_of, update_row,
  full_update, mark, unmark_all, do_update_queue, do_insert_set, flush_inserts, start_scan,
  mid_scan, confirm, handle_found, handle_new, handle_row, handle_item, alert_round, alert_task,
  Run,
}

-- No row comes in under a new name.
abbrev pub NoNew : Database → Database → Type 0
NoNew db db' = (j : Bytes) → lookup j db ≡ none → lookup j db' ≡ none

pub update_row-NoNew :
    (name : Bytes) (f : Row → Row) (db : Database) → NoNew db (update_row name f db)
unfolding update_row
update_row-NoNew name f db j h = elim (Option-cases (lookup name db)) [
  | inl e ↦ rw (e, update_row) h
  | inr (r, e) ↦
      rw (e, update_row) (ground (arith, lookup-assign name j (f r) db, beq_iff name j, e, h))
]

unmark_all-NoNew : (db : Database) → NoNew db (unmark_all db)
unfolding unmark_all lookup
unmark_all-NoNew [] j h = refl
unmark_all-NoNew ((k, row) ∷ db) j h = ground (arith, unmark_all-NoNew db j)

remove_key-NoNew : (name : Bytes) (db : Database) → NoNew db (remove_key name db)
remove_key-NoNew name db j h = ground (arith, lookup-remove_key name j db, h)

do_update_queue-NoNew : (paths : List Bytes) (db : Database) → NoNew db (do_update_queue paths db)
unfolding do_update_queue
do_update_queue-NoNew [] db j h = h
do_update_queue-NoNew (p ∷ paths) db j h =
    do_update_queue-NoNew paths (update_row p mark db) j (update_row-NoNew p mark db j h)

-- An object that waits to be inserted: under its path, with no row.
abbrev Waits : Database → Bytes × FileData → Type 0
Waits db e = (e.0 ≡ e.1.path) × (lookup e.0 db ≡ none)

abbrev pub Fresh : List (Bytes × FileData) → Database → Type 0
Fresh set db = Sorted set × All (Waits db) set

Waits-NoNew :
    (set : List (Bytes × FileData)) (db db' : Database)
    → NoNew db db'
    → All (Waits db) set
    → All (Waits db') set
Waits-NoNew [] db db' n h = tt
Waits-NoNew ((k, fd) ∷ set) db db' n h = ((h.0.0, n k h.0.1), Waits-NoNew set db db' n h.1)

Waits-assign :
    (fd : FileData) (set : List (Bytes × FileData)) (db : Database)
    → lookup fd.path db ≡ none
    → All (Waits db) set
    → All (Waits db) (assign fd.path fd set)
unfolding assign
Waits-assign fd [] db n h = ((refl, n), tt)
Waits-assign fd ((j, w) ∷ set) db n h = elim (Bool-cases (beq j fd.path)) [
  | inl e ↦ rw e (((beq_iff j fd.path).0 e, h.0.1), h.1)
  | inr e ↦ rw e (elim (Bool-cases (before fd.path j)) [
    | inl b ↦ rw b ((refl, n), h)
    | inr b ↦ rw b (h.0, Waits-assign fd set db n h.1)
  ])
]

-- An inserted row is not one of those that still wait behind it.
Waits-inserted :
    (k : Bytes) (row : Row) (set : List (Bytes × FileData)) (db : Database)
    → Behind k set
    → All (Waits db) set
    → All (Waits (assign k row db)) set
Waits-inserted k row [] db b h = tt
Waits-inserted k row ((j, fd) ∷ set) db b h = (
  (
    h.0.0,
    ground
        (arith, lookup-assign k j row db, before_distinct k j b.0, beq_iff k j, beq_iff j k, h.0.1),
  ),
  Waits-inserted k row set db b.1 h.1,
)

pub insert_row-new :
    (name : Bytes) (row : Row) (db : Database)
    → lookup name db ≡ none
    → insert_row name row db ≡ ok (assign name row db)
unfolding insert_row
insert_row-new name row db e = rw (e, insert_row)

abbrev pub Never : DbError → Type 0
Never e = ⊥

-- Outside a scan nothing waits.
abbrev pub Pending : Alerter → Type 0
Pending a = (a.in_scan ≡ false → a.insert_set ≡ []) × Fresh a.insert_set a.db

abbrev pub KeepsPending : Step → Type 0
KeepsPending = Post Never (λ r. Pending r.0)

-- Another database without a new name, and the same objects.
Pending-NoNew :
    (a : Alerter) (db : Database) → NoNew a.db db → Pending a → Pending (record a { db = db })
Pending-NoNew a db n h = (h.0, (h.1.0, Waits-NoNew a.insert_set a.db db n h.1.1))

not-eq-true : (b : Bool) → not b ≡ true → b ≡ false
not-eq-true b h = ground arith

module _ (unit_test : Bool) (time_text : ℕ → Bytes) (block_size : ℕ) where
  do_insert_set-Never :
      (now : ℕ) (set : List (Bytes × FileData)) (db : Database)
      → Fresh set db
      → Post Never (λ r. Unit {0}) (do_insert_set unit_test time_text block_size now set db)
  unfolding do_insert_set
  do_insert_set-Never now [] db h = tt
  do_insert_set-Never now ((k, fd) ∷ set) db ((b, sorted), (here, waits)) =
      let at : lookup fd.path db ≡ none = subst (λ p. lookup p db ≡ none) here.0 here.1 in
      let behind : Behind fd.path set = subst (λ p. Behind p set) here.0 b in
      rw (insert_row-new fd.path (row_of fd) db at) (
        Post-bind Never (λ r. Unit {0}) (λ r. Unit {0}) _ _
          (do_insert_set-Never now set (assign fd.path (row_of fd) db)
            (sorted, Waits-inserted fd.path (row_of fd) set db behind waits))
          (λ r u. tt))

  flush_inserts-Pending :
      (now : ℕ) (a : Alerter)
      → Fresh a.insert_set a.db
      → KeepsPending (flush_inserts unit_test time_text block_size now a)
  unfolding flush_inserts
  flush_inserts-Pending now a h =
      Post-bind Never (λ r. Unit {0}) (λ r. Pending r.0) _ _
        (do_insert_set-Never now a.insert_set a.db h) (λ r u. ((λ e. refl), (tt, tt)))

  mid_scan-Pending :
      (now : ℕ) (a : Alerter)
      → Pending a
      → KeepsPending (mid_scan unit_test time_text block_size now a)
  unfolding mid_scan
  mid_scan-Pending now a h =
      Post-bind Never (λ r. Pending r.0) (λ r. Pending r.0) _ _
        (flush_inserts-Pending now (record a { in_scan = false }) h.1)
        (λ r p. Pending-NoNew r.0 _ (do_update_queue-NoNew r.0.update_queue r.0.db) p)

  handle_new-Pending :
      (now : ℕ) (fd : FileData) (a : Alerter)
      → lookup fd.path a.db ≡ none
      → Pending a
      → KeepsPending (handle_new unit_test time_text block_size now fd a)
  unfolding handle_new
  handle_new-Pending now fd a new h =
      let set = assign fd.path fd a.insert_set in
      let fresh : Fresh set a.db = (
        assign-Sorted fd.path fd a.insert_set h.1.0,
        Waits-assign fd a.insert_set a.db new h.1.1,
      ) in
      Post-if Never (λ r. Pending r.0) (not a.in_scan) _ _
        (λ t. rw (insert_row-new fd.path (row_of fd) a.db new) (
          h.0,
          subst (λ s. Fresh s (assign fd.path (row_of fd) a.db))
              (sym (h.0 (not-eq-true a.in_scan t))) (tt, tt),
        ))
        (λ s.
          Post-if Never (λ r. Pending r.0) (leb block_size (length set)) _ _
            (λ t. flush_inserts-Pending now (record a { insert_set = set }) fresh)
            (λ t. ((λ f. absurd (ground arith)), fresh)))

  confirm-Pending :
      (path : Bytes) (a : Alerter)
      → Pending a
      → Pending (confirm unit_test time_text block_size path a)
  unfolding confirm
  confirm-Pending path a h =
      let queue = a.update_queue ++ (path ∷ []) in
      if-both Pending (not a.in_scan) _ _ (Pending-NoNew a _ (update_row-NoNew path mark a.db) h) (
        if-both Pending (leb block_size (length queue)) _ _
          (Pending-NoNew a _ (do_update_queue-NoNew queue a.db) h) h)

  handle_found-Pending :
      (now : ℕ) (flags : Flags) (fd : FileData) (row : Row) (a : Alerter)
      → Pending a
      → Pending (handle_found unit_test time_text block_size now flags fd row a).0
  unfolding handle_found
  handle_found-Pending now flags fd row a h =
      let P : Alerter × Effects → Type 0 = λ r. Pending r.0 in
      if-both P fd.exists _ _
        (if-both P (is_changed unit_test time_text row fd) _ _
          (Pending-NoNew a _ (update_row-NoNew fd.path (full_update fd) a.db) h)
          (if-both P flags.force_update _ _ (confirm-Pending fd.path a h) h))
        (Pending-NoNew a _ (remove_key-NoNew fd.path a.db) h)

  handle_item-Pending :
      (now : ℕ) (flags : Flags) (item : Option FileData) (a : Alerter)
      → Pending a
      → KeepsPending (handle_item unit_test time_text block_size now flags item a)
  unfolding handle_item
  handle_item-Pending now flags none a h = h
  handle_item-Pending now flags (some fd) a h = elim (Option-cases (lookup fd.path a.db)) [
    | inl e ↦
        rw (e, handle_row)
          (Post-if Never (λ r. Pending r.0) fd.exists _ _ (λ t. handle_new-Pending now fd a e h)
            (λ t. h))
    | inr (row, e) ↦ rw (e, handle_row) (handle_found-Pending now flags fd row a h)
  ]

  pub alert_round-Pending :
      (r : Round) (a : Alerter)
      → Pending a
      → KeepsPending (alert_round unit_test time_text block_size r a)
  unfolding alert_round start_scan
  alert_round-Pending r a h =
      Post-if Never (λ x. Pending x.0) r.flags.startscan _ _
        (λ t. (
          (λ f. absurd (cc)),
          (h.1.0, Waits-NoNew a.insert_set a.db _ (unmark_all-NoNew a.db) h.1.1),
        ))
        (λ t.
          Post-if Never (λ x. Pending x.0) r.flags.midscan _ _ (λ u. mid_scan-Pending r.now a h)
            (λ u.
              Post-if Never (λ x. Pending x.0) r.flags.endscan _ _ (λ v. h)
                (λ v. handle_item-Pending r.now r.flags r.item a h)))

  pub alert_task-Pending :
      (rs : List Round) (a : Alerter)
      → Pending a
      → (alert_task unit_test time_text block_size rs a).failed ≡ false
  unfolding alert_task
  alert_task-Pending [] a h = refl
  alert_task-Pending (r ∷ rs) a h =
      if-both (λ (x : Run). x.failed ≡ false) (r.flags.kill || not r.running) _ _ refl
        (elim (Outcome-cases (alert_round unit_test time_text block_size r a)) [
          | inl ((next, effects), e) ↦
              rw e (alert_task-Pending rs next (rw e at (alert_round-Pending r a h)))
          | inr (er, e) ↦ absurd (rw e at (alert_round-Pending r a h))
        ])

  -- Whatever objects are reported, before, in and after scans, in whatever order: alert_task inserts
  -- no row under a name that is there, so it does not end by the database's exception.
  pub alert_task_unique :
      (rs : List Round) (db : Database)
      → (alert_task unit_test time_text block_size rs (fresh_alerter db)).failed ≡ false
  alert_task_unique rs db = alert_task-Pending rs (fresh_alerter db) ((λ e. refl), (tt, tt))
