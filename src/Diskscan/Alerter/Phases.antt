-- ===== src/Diskscan/Alerter/Phases.antt =====
-- The two phases of a scan: after the second no row is left that was not scanned.
use mathlib.Core.Path.{subst}
use ctguard.Base.{
  ℕ, ◌≡◌, refl, sym, Bool, true, false, not, List, [], ◌∷◌, Option, none, some, Option-cases, inl,
  inr, Bytes, beq, beq_iff, if-cases, if-both, lookup, assign, lookup-assign, remove_key,
  lookup-remove_key, text_key, Post, Post-if, Post-bind, arith, ◌∙◌, Bool-cases, Elem, Whatever,
}
use ctguard.Diskscan.Flags.{Flags}
use ctguard.Diskscan.FileData.{FileData}
use ctguard.Diskscan.Alerts.{Row, is_changed}
use ctguard.Diskscan.Alerter.{
  Database, Alerter, Effects, insert_row, row_of, update_row, full_update, mark, unscanned,
  do_update_queue, do_insert_set, flush_inserts, mid_scan, confirm, handle_found, handle_new,
  handle_row, handle_item,
}

-- Only names with the property have a row that was not scanned.
abbrev pub Leaves : (Bytes → Type 0) → Database → Type 0
Leaves P db = (j : Bytes) (row : Row) → lookup j db ≡ some row → row.scanned ≡ false → P j

-- The round reports the name, with FORCE_UPDATE.
abbrev pub Reports : Bytes → Option FileData → Flags → Type 0
Reports j none flags = ⊥
Reports j (some fd) flags = (fd.path ≡ j) × (flags.force_update ≡ true)

clash :
    (db : Database) (k j : Bytes) (r : Row) → lookup k db ≡ none → lookup j db ≡ some r → k ≡ j → ⊥
clash db k j r e g q = let at : lookup j db ≡ none = subst (λ n. lookup n db ≡ none) q e in cc

module _ (P : Bytes → Type 0) (db : Database) (left : Leaves P db) where
  assign-Leaves :
      (k : Bytes) (row : Row)
      → row.scanned ≡ true
      → Leaves (λ j. P j × (¬ (k ≡ j))) (assign k row db)
  assign-Leaves k row s j r e f = elim (Bool-cases (beq k j)) [
    | inl x ↦ absurd (
        let same : some row ≡ some r = rw x at (sym (lookup-assign k j row db) ∙ e) in ground arith)
    | inr x ↦ (
      left j r (rw x at (sym (lookup-assign k j row db) ∙ e)) f,
      λ q. absurd (ground (arith, beq_iff k j)),
    )
  ]

  remove_key-Leaves : (k : Bytes) → Leaves (λ j. P j × (¬ (k ≡ j))) (remove_key k db)
  remove_key-Leaves k j r e f = elim (Bool-cases (beq k j)) [
    | inl x ↦ absurd (let gone : none ≡ some r = rw x at (sym (lookup-remove_key k j db) ∙ e) in cc)
    | inr x ↦ (
      left j r (rw x at (sym (lookup-remove_key k j db) ∙ e)) f,
      λ q. absurd (ground (arith, beq_iff k j)),
    )
  ]

  update_row-Leaves :
      (k : Bytes) (f : Row → Row)
      → ((r : Row) → (f r).scanned ≡ true)
      → Leaves (λ j. P j × (¬ (k ≡ j))) (update_row k f db)
  unfolding update_row
  update_row-Leaves k f s = elim (Option-cases (lookup k db)) [
    | inl e ↦ rw (e, update_row) (λ j r g h. (left j r g h, λ q. absurd (clash db k j r e g q)))
    | inr (r, e) ↦ rw (e, update_row) (assign-Leaves k (f r) (s r))
  ]

  -- A name that has no row is none of those that are left.
  absent-Leaves : (k : Bytes) → lookup k db ≡ none → Leaves (λ j. P j × (¬ (k ≡ j))) db
  absent-Leaves k e j r g h = (left j r g h, λ q. absurd (clash db k j r e g q))

unscanned-Leaves : (db : Database) → Leaves (λ j. Elem j (unscanned db)) db
unfolding unscanned lookup
unscanned-Leaves [] j r e f = cc
unscanned-Leaves ((k, row) ∷ db) j r e f = elim (Bool-cases (beq k j)) [
  | inl x ↦
      (let same : some row ≡ some r = rw x at e in
        if-cases (Elem j) row.scanned _ _ (λ t. absurd (ground arith))
          (λ t. inl ((beq_iff k j).0 x)))
  | inr x ↦
      (let rest : Elem j (unscanned db) = unscanned-Leaves db j r (rw x at e) f in
        if-both (Elem j) row.scanned _ _ rest (inr rest))
]

pub Leaves-map :
    (P Q : Bytes → Type 0) (db : Database) → ((j : Bytes) → P j → Q j) → Leaves P db → Leaves Q db
Leaves-map P Q db f h j r e s = f j (h j r e s)

do_update_queue-Leaves :
    (P : Bytes → Type 0) (paths : List Bytes) (db : Database)
    → Leaves P db
    → Leaves P (do_update_queue paths db)
unfolding do_update_queue
do_update_queue-Leaves P [] db h = h
do_update_queue-Leaves P (p ∷ paths) db h =
    do_update_queue-Leaves P paths (update_row p mark db)
      (Leaves-map _ P _ (λ j q. q.0) (update_row-Leaves P db h p mark (λ r. refl)))

module _ (unit_test : Bool) (time_text : ℕ → Bytes) (block_size : ℕ) where
  do_insert_set-Leaves :
      (P : Bytes → Type 0) (now : ℕ) (set : List (Bytes × FileData)) (db : Database)
      → Leaves P db
      → Post Whatever (λ r. Leaves P r.0) (do_insert_set unit_test time_text block_size now set db)
  unfolding do_insert_set insert_row
  do_insert_set-Leaves P now [] db h = h
  do_insert_set-Leaves P now ((k, fd) ∷ set) db h = elim (Option-cases (lookup fd.path db)) [
    | inr (r, e) ↦ rw (e, insert_row) tt
    | inl e ↦
        rw (e, insert_row)
          (Post-bind Whatever (λ r. Leaves P r.0) (λ r. Leaves P r.0) _ _
            (do_insert_set-Leaves P now set (assign fd.path (row_of fd) db)
              (Leaves-map _ P _ (λ j q. q.0) (assign-Leaves P db h fd.path (row_of fd) refl)))
            (λ r u. u))
  ]

  pub mid_scan-Leaves :
      (now : ℕ) (a : Alerter)
      → Post Whatever
          (λ r. Leaves (λ j. Elem j (unscanned a.db)) r.0.db × (r.0.in_scan ≡ false))
          (mid_scan unit_test time_text block_size now a)
  unfolding mid_scan flush_inserts
  mid_scan-Leaves now a =
      let P : Bytes → Type 0 = λ j. Elem j (unscanned a.db) in
      let Q : Alerter × Effects → Type 0 = λ r. Leaves P r.0.db × (r.0.in_scan ≡ false) in
      Post-bind Whatever Q Q _ _
        (Post-bind Whatever (λ r. Leaves P r.0) Q _ _
          (do_insert_set-Leaves P now a.insert_set a.db (unscanned-Leaves a.db)) (λ r u. (u, refl)))
        (λ r u. (do_update_queue-Leaves P r.0.update_queue r.0.db u.0, u.1))

  pub handle_item-Leaves :
      (P : Bytes → Type 0) (now : ℕ) (flags : Flags) (item : Option FileData) (a : Alerter)
      → a.in_scan ≡ false
      → Leaves P a.db
      → Post Whatever
          (λ r. Leaves (λ j. P j × (¬ Reports j item flags)) r.0.db × (r.0.in_scan ≡ false))
          (handle_item unit_test time_text block_size now flags item a)
  unfolding handle_item handle_new handle_found insert_row confirm
  handle_item-Leaves P now flags none a idle h = (Leaves-map P _ a.db (λ j p. (p, λ x. x)) h, idle)
  handle_item-Leaves P now flags (some fd) a idle h =
      let R : Bytes → Type 0 = λ j. P j × (¬ Reports j (some fd) flags) in
      let Q : Alerter × Effects → Type 0 = λ r. Leaves R r.0.db × (r.0.in_scan ≡ false) in
      let gone : (db : Database) → Leaves (λ j. P j × (¬ (fd.path ≡ j))) db → Leaves R db =
        λ db. Leaves-map _ R db (λ j p. (p.0, λ x. p.1 x.0)) in
      elim (Option-cases (lookup fd.path a.db)) [
        | inl e ↦
            rw (e, handle_row)
              (Post-if Whatever Q fd.exists _ _
                (λ t.
                  Post-if Whatever Q (not a.in_scan) _ _
                    (λ n.
                      rw (e, insert_row)
                        (gone _ (assign-Leaves P a.db h fd.path (row_of fd) refl), idle))
                    (λ n. absurd (ground arith)))
                (λ f. (gone a.db (absent-Leaves P a.db h fd.path e), idle)))
        | inr (row, e) ↦
            rw (e, handle_row)
              (if-cases Q fd.exists _ _
                (λ t.
                  if-cases Q (is_changed unit_test time_text row fd) _ _
                    (λ c. (
                      gone _ (update_row-Leaves P a.db h fd.path (full_update fd) (λ r. refl)),
                      idle,
                    ))
                    (λ c.
                      if-cases Q flags.force_update _ _
                        (λ force.
                          if-cases (λ (n : Alerter). Leaves R n.db × (n.in_scan ≡ false))
                            (not a.in_scan) _ _
                            (λ n.
                              (gone _ (update_row-Leaves P a.db h fd.path mark (λ r. refl)), idle))
                            (λ n. absurd (ground arith)))
                        (λ free. (Leaves-map P R a.db (λ j p. (p, λ x. absurd (cc))) h, idle))))
                (λ f. (gone _ (remove_key-Leaves P a.db h fd.path), idle)))
      ]
