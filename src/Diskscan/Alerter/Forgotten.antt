-- ===== src/Diskscan/Alerter/Forgotten.antt =====
-- A report of attributes alone, for a symbolic link.
use ctguard.Base.{
  ℕ, ◌≡◌, ◌≢◌, refl, sym, ◌∙◌, Bool, true, false, List, [], some, Bytes, Bool-cases, inl, inr,
  if-cases, is_empty, lookup, lookup-assign, text_key, beq_iff, arith,
}
use ctguard.Diskscan.Flags.{no_flags}
use ctguard.Diskscan.FileData.{
  FileData, link, Stat, Sight, DiffDatabase, found_file, construct_found, construct,
}
use ctguard.Diskscan.Alerts.{Row, is_changed}
use ctguard.Diskscan.Alerter.{
  Alerter, Effects, Database, update_row, full_update, row_of, handle_found,
}
use ctguard.Diskscan.Alerter.Agrees.{is_changed-Agrees}

update_row-lookup :
    (name : Bytes) (f : Row → Row) (row : Row) (db : Database)
    → lookup name db ≡ some row
    → lookup name (update_row name f db) ≡ some (f row)
unfolding update_row
update_row-lookup name f row db e =
    rw (e, update_row) (ground (arith, lookup-assign name name (f row) db, beq_iff name name))

module _ (unit_test : Bool) (time_text : ℕ → Bytes) (block_size : ℕ) where
  -- An event on the attributes of a known symbolic link whose owner has changed makes the database
  -- forget the link's target: a later look that finds the target which stood there counts as a change.
  pub target_forgotten :
      (hash : Bytes → Bytes) (unified : List Bytes → List Bytes → Bytes) (limit now : ℕ)
      (sight : Sight) (path : Bytes) (s : Stat) (diffs : DiffDatabase) (row : Row) (a : Alerter)
      (later : FileData)
      → sight.stat ≡ some s
      → is_empty path ≡ false
      → lookup path a.db ≡ some row
      → row.user ≢ (found_file sight path s).user
      → row.target ≢ []
      → later.type ≡ link
      → later.content_checked ≡ true
      → later.target ≡ row.target
      → let fd = found_file sight path s in
        (construct hash unified limit sight path false false diffs ≡ (some fd, diffs))
        × (lookup path (handle_found unit_test time_text block_size now no_flags fd row a).0.db
            ≡ some (full_update fd row))
        × (is_changed unit_test time_text (full_update fd row) later ≡ true)
  unfolding construct construct_found found_file handle_found full_update row_of
  target_forgotten hash unified limit now sight path s diffs row a later st p known user target l c
        t =
      let fd = found_file sight path s in
      let P : Alerter × Effects → Type 0 = λ r. lookup path r.0.db ≡ some (full_update fd row) in
      (
        rw (p, st, construct_found) refl,
        if-cases P (is_changed unit_test time_text row fd) _ _
            (λ e. update_row-lookup path (full_update fd) row a.db known)
            (λ e. absurd (user ((is_changed-Agrees unit_test time_text row fd).0 e).user)),
        elim (Bool-cases (is_changed unit_test time_text (full_update fd row) later)) [
          | inl e ↦ e
          | inr e ↦ absurd (
              target (
                sym t
                ∙ sym (
                    ((is_changed-Agrees unit_test time_text (full_update fd row) later).0 e).target
                      l c)))
        ],
      )
