-- ===== src/Diskscan/Alerter/Agrees.antt =====
-- What the database knows of an object after a report, and a report that says nothing new.
use ctguard.Base.{
  ℕ, ◌≡◌, refl, sym, ◌↔◌, Bool, true, false, not, ◌&&◌, ◌||◌, List, [], ◌∷◌, concat, some,
  Option-cases, inl, inr, Bytes, beq, beq_iff, ◌==◌, lookup, assign, lookup-assign, text_key, Post,
  Post-if, arith, if-both, ◌∙◌, if-cases, Post-weaken,
}
use ctguard.Diskscan.Flags.{Flags, is_special}
use ctguard.Diskscan.FileData.{FileData, FileType, file, link}
use ctguard.Diskscan.Alerts.{
  Row, Note, note, any_counts, is_type, type_code, differences, is_changed,
}
use ctguard.Diskscan.Alerter.{
  Database, Alerter, Effects, Round, insert_row, row_of, update_row, full_update, mark, confirm,
  handle_found, handle_new, handle_row, handle_item, alert_round,
}
use ctguard.Diskscan.Alerter.Unique.{Never}

-- The row tells of the object what was seen of it; of a file's checksum and of a link's target, if
-- the content was looked at.
pub record Agrees (row : Row) (fd : FileData) : Type 0 where
  pub user : row.user ≡ fd.user
  pub group : row.group ≡ fd.group
  pub size : row.size ≡ fd.size
  pub mode : row.mode ≡ fd.mode
  pub type : row.type ≡ fd.type
  pub checksum : fd.type ≡ file → fd.content_checked ≡ true → row.sha256 ≡ fd.sha256
  pub target : fd.type ≡ link → fd.content_checked ≡ true → row.target ≡ fd.target

is_type_iff : (a b : FileType) → (is_type a b ≡ true) ↔ (a ≡ b)
unfolding is_type type_code
is_type_iff a b = ground arith

any_counts-note :
    (t c : Bool) (x : Bytes) (ns : List (List Note))
    → any_counts (concat (note t c x ∷ ns)) ≡ ((t && c) || any_counts (concat ns))
unfolding any_counts note
any_counts-note t c x ns = ground arith

-- The reasons for an alert, one behind the other.
reasons : Row → FileData → Bool
reasons row fd =
    not (beq row.user fd.user)
    || not (beq row.group fd.group)
    || not (row.size == fd.size)
    || not (row.mode == fd.mode)
    || (is_type fd.type file && fd.content_checked && not (beq fd.sha256 row.sha256))
    || (is_type fd.type link && (fd.content_checked && not (beq row.target fd.target)))
    || not (is_type row.type fd.type)

reasons-Agrees : (row : Row) (fd : FileData) → reasons row fd ≡ false → Agrees row fd
unfolding reasons
reasons-Agrees row fd h = record {
  user = ground (arith, beq_iff row.user fd.user);
  group = ground (arith, beq_iff row.group fd.group);
  size = ground arith;
  mode = ground arith;
  type = ground (arith, is_type_iff row.type fd.type);
  checksum = λ t c. ground (arith, is_type_iff fd.type file, beq_iff fd.sha256 row.sha256);
  target = λ t c. ground (arith, is_type_iff fd.type link, beq_iff row.target fd.target);
}

Agrees-reasons : (row : Row) (fd : FileData) → Agrees row fd → reasons row fd ≡ false
unfolding reasons
Agrees-reasons row fd h = ground (
  arith,
  beq_iff row.user fd.user,
  beq_iff row.group fd.group,
  is_type_iff row.type fd.type,
  is_type_iff fd.type file,
  is_type_iff fd.type link,
  beq_iff fd.sha256 row.sha256,
  beq_iff row.target fd.target,
  h.user,
  h.group,
  h.size,
  h.mode,
  h.type,
  h.checksum,
  h.target,
)

row_of-Agrees : (fd : FileData) → Agrees (row_of fd) fd
unfolding row_of
row_of-Agrees fd = record {
  user = refl;
  group = refl;
  size = refl;
  mode = refl;
  type = refl;
  checksum = λ t c. ground arith;
  target = λ t c. refl;
}

full_update-Agrees : (fd : FileData) (row : Row) → Agrees (full_update fd row) fd
unfolding full_update row_of
full_update-Agrees fd row = record {
  user = refl;
  group = refl;
  size = refl;
  mode = refl;
  type = refl;
  checksum = λ t c. ground arith;
  target = λ t c. refl;
}

mark-Agrees : (row : Row) (fd : FileData) → Agrees row fd → Agrees (mark row) fd
mark-Agrees row fd h = record {
  user = h.user;
  group = h.group;
  size = h.size;
  mode = h.mode;
  type = h.type;
  checksum = h.checksum;
  target = h.target;
}

-- The database has a row of the object that agrees with it.
abbrev pub Knows : Database → FileData → Type 0
Knows db fd = (row : Row) × (lookup fd.path db ≡ some row) × Agrees row fd

assign-Knows :
    (fd : FileData) (row : Row) (db : Database) → Agrees row fd → Knows (assign fd.path row db) fd
assign-Knows fd row db h =
    (row, ground (arith, lookup-assign fd.path fd.path row db, beq_iff fd.path fd.path), h)

update_row-Knows :
    (fd : FileData) (f : Row → Row) (row : Row) (db : Database)
    → lookup fd.path db ≡ some row
    → Agrees (f row) fd
    → Knows (update_row fd.path f db) fd
unfolding update_row
update_row-Knows fd f row db e h = rw (e, update_row) (assign-Knows fd (f row) db h)

-- An object that was looked at.
abbrev pub report : ℕ → Flags → FileData → Round
report now flags fd = record { running = true; item = some fd; flags = flags; now = now }

module _ (unit_test : Bool) (time_text : ℕ → Bytes) where
  is_changed-reasons :
      (row : Row) (fd : FileData) → is_changed unit_test time_text row fd ≡ reasons row fd
  unfolding is_changed differences reasons
  is_changed-reasons row fd = simp any_counts-note (ground arith)

  -- There is a reason for an alert exactly when the row does not agree with the object.
  pub is_changed-Agrees :
      (row : Row) (fd : FileData) → (is_changed unit_test time_text row fd ≡ false) ↔ Agrees row fd
  is_changed-Agrees row fd = (
    λ h. reasons-Agrees row fd (sym (is_changed-reasons row fd) ∙ h),
    λ h. is_changed-reasons row fd ∙ Agrees-reasons row fd h,
  )

  module _ (block_size : ℕ) (now : ℕ) (flags : Flags) (fd : FileData)
      (there : fd.exists ≡ true) where
    -- A report of an object, outside a scan: afterwards the database agrees with it.
    found-Knows :
        (row : Row) (a : Alerter)
        → a.in_scan ≡ false
        → lookup fd.path a.db ≡ some row
        → Knows (handle_found unit_test time_text block_size now flags fd row a).0.db fd
    unfolding handle_found confirm
    found-Knows row a idle e =
        let P : Alerter × Effects → Type 0 = λ r. Knows r.0.db fd in
        if-cases P fd.exists _ _
          (λ t.
            if-cases P (is_changed unit_test time_text row fd) _ _
              (λ c. update_row-Knows fd (full_update fd) row a.db e (full_update-Agrees fd row))
              (λ c.
                let known = (is_changed-Agrees row fd).0 c in
                if-both P flags.force_update _ _
                  (if-cases (λ (n : Alerter). Knows n.db fd) (not a.in_scan) _ _
                    (λ n. update_row-Knows fd mark row a.db e (mark-Agrees row fd known))
                    (λ n. absurd (ground arith)))
                  (row, e, known)))
          (λ f. absurd (cc))

    item-Knows :
        (a : Alerter)
        → a.in_scan ≡ false
        → Post Never
            (λ r. Knows r.0.db fd)
            (handle_item unit_test time_text block_size now flags (some fd) a)
    unfolding handle_item handle_new insert_row
    item-Knows a idle = elim (Option-cases (lookup fd.path a.db)) [
      | inr (row, e) ↦ rw (e, handle_row) (found-Knows row a idle e)
      | inl e ↦
          rw (e, handle_row)
            (Post-if Never (λ r. Knows r.0.db fd) fd.exists _ _
              (λ t.
                Post-if Never (λ r. Knows r.0.db fd) (not a.in_scan) _ _
                  (λ n. rw (e, insert_row) (assign-Knows fd (row_of fd) a.db (row_of-Agrees fd)))
                  (λ n. absurd (ground arith)))
              (λ f. absurd (cc)))
    ]

    again-silent :
        (a : Alerter)
        → Knows a.db fd
        → Post Never
            (λ r. r.1.events ≡ [])
            (handle_item unit_test time_text block_size now flags (some fd) a)
    unfolding handle_item handle_found
    again-silent a (row, e, h) =
        let P : Alerter × Effects → Type 0 = λ r. r.1.events ≡ [] in
        rw (e, handle_row)
          (if-cases P fd.exists _ _
            (λ t.
              if-cases P (is_changed unit_test time_text row fd) _ _
                (λ c. absurd (let no = (is_changed-Agrees row fd).1 h in cc))
                (λ c. if-both P flags.force_update _ _ refl refl))
            (λ f. absurd (cc)))

  module _ (block_size : ℕ) (now now' : ℕ) (flags flags' : Flags) (fd : FileData) where
    report-item :
        (t : ℕ) (f : Flags) (a : Alerter)
        → is_special f ≡ false
        → alert_round unit_test time_text block_size (report t f fd) a
          ≡ handle_item unit_test time_text block_size t f (some fd) a
    unfolding is_special alert_round
    report-item t f a h = ground arith

    -- Outside a scan, a report of an object that exists meets no error; afterwards the database has
    -- a row that agrees with it, and a second report of the same raises no alert.
    pub report_twice :
        (a : Alerter)
        → a.in_scan ≡ false
        → fd.exists ≡ true
        → is_special flags ≡ false
        → is_special flags' ≡ false
        → Post Never
            (λ first.
              Knows first.0.db fd
              × Post Never
                  (λ second. second.1.events ≡ [])
                  (alert_round unit_test time_text block_size (report now' flags' fd) first.0))
            (alert_round unit_test time_text block_size (report now flags fd) a)
    report_twice a idle there plain plain' = rw (report-item now flags a plain) (
        Post-weaken Never _ (λ r. Knows r.0.db fd) _
          (λ r known. (
            known,
            rw (report-item now' flags' r.0 plain')
                (again-silent block_size now' flags' fd there r.0 known),
          ))
          (item-Knows block_size now flags fd there a idle))
