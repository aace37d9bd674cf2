-- ===== src/Diskscan/Alerter/Scanned.antt =====
-- A whole second phase, with whatever else is reported between its answers.
use ctguard.Base.{
  ℕ, ◌≡◌, refl, Bool, true, false, List, [], ◌∷◌, Any, All, All-at, Elem, none, some, Outcome-cases,
  inl, inr, Bytes, lookup, text_key, ok, Post, arith, Bool-cases,
}
use ctguard.Diskscan.Flags.{is_special, midscan_flag}
use ctguard.Diskscan.Alerts.{Row}
use ctguard.Diskscan.Alerter.{
  Alerter, Effects, Round, before, unscanned, handle_item, alert_round, alert_task,
}
use ctguard.Diskscan.Alerter.Unique.{Pending, alert_round-Pending}
use ctguard.Diskscan.Alerter.Phases.{
  Leaves, Leaves-map, Reports, mid_scan-Leaves, handle_item-Leaves,
}

-- A round with the report of an object.
abbrev pub IsReport : Round → Type 0
IsReport r = (r.running ≡ true) × (is_special r.flags ≡ false)

-- Some of the rounds reports the name, with FORCE_UPDATE.
abbrev pub IsReported : List Round → Bytes → Type 0
IsReported rs j = Any (λ r. Reports j r.item r.flags) rs

-- The round at which the first phase ends.
abbrev pub mid_round : ℕ → Round
mid_round now = record { running = true; item = none; flags = midscan_flag; now = now }

remaining :
    (j : Bytes) (r : Round) (rs : List Round)
    → IsReported (r ∷ rs) j × (¬ Reports j r.item r.flags)
    → IsReported rs j
remaining j r rs (inl here, un) = absurd (un here)
remaining j r rs (inr later, un) = later

module _ (unit_test : Bool) (time_text : ℕ → Bytes) (block_size : ℕ) where
  pub alert_task-next :
      (r : Round) (rs : List Round) (a next : Alerter) (e : Effects)
      → r.running ≡ true
      → r.flags.kill ≡ false
      → alert_round unit_test time_text block_size r a ≡ ok (next, e)
      → alert_task unit_test time_text block_size (r ∷ rs) a
        ≡ before e (alert_task unit_test time_text block_size rs next)
  unfolding alert_task
  alert_task-next r rs a next e running free step = ground arith

  -- What a postcondition and the invariant say of a round that goes on.
  step_ok :
      (Q : Alerter × Effects → Type 0) (r : Round) (rs : List Round) (a : Alerter)
      → r.running ≡ true
      → r.flags.kill ≡ false
      → Pending a
      → Post (λ e. Unit {0}) Q (alert_round unit_test time_text block_size r a)
      → (next : Alerter) × (e : Effects) × Q (next, e)
        × Pending next
        × (alert_task unit_test time_text block_size (r ∷ rs) a
            ≡ before e (alert_task unit_test time_text block_size rs next))
  step_ok Q r rs a running free p q =
      elim (Outcome-cases (alert_round unit_test time_text block_size r a)) [
        | inl ((next, e), eq) ↦ (
          next,
          e,
          rw eq at q,
          rw eq at (alert_round-Pending unit_test time_text block_size r a p),
          alert_task-next r rs a next e running free eq,
        )
        | inr (er, eq) ↦
            absurd (rw eq at (alert_round-Pending unit_test time_text block_size r a p))
      ]

  pub report-item :
      (r : Round) (a : Alerter)
      → is_special r.flags ≡ false
      → (alert_round unit_test time_text block_size r a
          ≡ handle_item unit_test time_text block_size r.now r.flags r.item a)
        × (r.flags.kill ≡ false)
  unfolding is_special alert_round
  report-item r a h = (ground arith, ground arith)

  reports-Leaves :
      (rs : List Round) (a : Alerter)
      → All IsReport rs
      → a.in_scan ≡ false
      → Pending a
      → Leaves (IsReported rs) a.db
      → Leaves (λ j. ⊥) (alert_task unit_test time_text block_size rs a).last.db
  unfolding alert_task
  reports-Leaves [] a all idle p h = h
  reports-Leaves (r ∷ rs) a all idle p h =
      let (plain, free) = report-item r a all.0.1 in
      let Q : Alerter × Effects → Type 0 = λ x.
        Leaves (λ j. IsReported (r ∷ rs) j × (¬ Reports j r.item r.flags)) x.0.db
        × (x.0.in_scan ≡ false) in
      let (next, e, (left, still), kept, eq) = step_ok Q r rs a all.0.0 free p (
        rw plain (
          handle_item-Leaves unit_test time_text block_size (IsReported (r ∷ rs)) r.now r.flags
            r.item a idle h)) in
      rw eq (
        reports-Leaves rs next all.1 still kept
          (Leaves-map _ _ next.db (λ j. remaining j r rs) left))

  -- Once phase 2 was begun and every name that it asks for was reported, with any other reports
  -- before, between and behind them, each row of the database was scanned.
  pub all_scanned :
      (now : ℕ) (rs : List Round) (a : Alerter)
      → Pending a
      → All IsReport rs
      → All (IsReported rs) (unscanned a.db)
      → (name : Bytes) (row : Row)
      → lookup name (alert_task unit_test time_text block_size (mid_round now ∷ rs) a).last.db
        ≡ some row
      → row.scanned ≡ true
  unfolding alert_round
  all_scanned now rs a p all asked name row at =
      let Q : Alerter × Effects → Type 0 =
        λ x. Leaves (λ j. Elem j (unscanned a.db)) x.0.db × (x.0.in_scan ≡ false) in
      let (next, e, (left, idle), kept, eq) =
        step_ok Q (mid_round now) rs a refl refl p
          (mid_scan-Leaves unit_test time_text block_size now a) in
      let nothing =
        reports-Leaves rs next all idle kept
          (Leaves-map _ _ next.db (λ j. All-at (IsReported rs) j (unscanned a.db) asked) left) in
      elim (Bool-cases row.scanned) [
        | inl t ↦ t
        | inr f ↦ absurd (nothing name row (rw eq at at) f)
      ]
