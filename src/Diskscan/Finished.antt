-- ===== src/Diskscan/Finished.antt =====
-- A scan from its second phase on: `alert_task` asks, `event_task` answers, and the scan ends.
use mathlib.Core.Path.{subst}
use ctguard.Base.{
  ℕ, ◌≡◌, refl, sym, ◌∙◌, ap, Bool, true, false, List, [], ◌∷◌, ◌++◌, map, All, none, some, inl,
  inr, Bytes, is_empty, lookup, text_key, Post, Outcome-cases, Post-eq-ok, arith, ok, Whatever,
  Post-then, append-nil,
}
use ctguard.Diskscan.Flags.{endscan_flag}
use ctguard.Diskscan.FileData.{Sight, DiffDatabase}
use ctguard.Diskscan.Alerts.{Row}
use ctguard.Diskscan.Alerter.{
  Alerter, Effects, Round, Run, unscanned, phase_2, mid_scan, flush_inserts, alert_round,
  alert_task,
}
use ctguard.Diskscan.Alerter.Unique.{Pending, alert_round-Pending}
use ctguard.Diskscan.Alerter.Phases.{Reports}
use ctguard.Diskscan.Alerter.Scanned.{
  IsReport, IsReported, mid_round, alert_task-next, report-item, all_scanned,
}
use ctguard.Diskscan.Scan.{PathEvent, EventRound, Item, look_at, event_task}
use ctguard.Diskscan.Scan.Forward.{construct-path}

-- The rounds in which the threads take what stands in their queues.
abbrev pub event_rounds : (Bytes → Sight) → List PathEvent → List EventRound
event_rounds look = map (λ e. record { running = true; event = e; sight = look e.0 })

abbrev pub alert_rounds : ℕ → List Item → List Round
alert_rounds now = map (λ i. record { running = true; item = i.0; flags = i.1; now = now })

abbrev end_round : ℕ → Round
end_round now = record { running = true; item = none; flags = endscan_flag; now = now }

-- Reports for the names, one for each.
Answers : List Bytes → List Round → Type 0
Answers [] [] = Unit {0}
Answers [] (r ∷ rs) = ⊥
Answers (n ∷ names) [] = ⊥
Answers (n ∷ names) (r ∷ rs) = IsReport r × Reports n r.item r.flags × Answers names rs

Answers-IsReport : (names : List Bytes) (rs : List Round) → Answers names rs → All IsReport rs
unfolding Answers
Answers-IsReport [] [] h = tt
Answers-IsReport [] (r ∷ rs) h = absurd h
Answers-IsReport (n ∷ names) [] h = absurd h
Answers-IsReport (n ∷ names) (r ∷ rs) h = (h.0, Answers-IsReport names rs h.2)

IsReported-later :
    (r : Round) (rs : List Round) (names : List Bytes)
    → All (IsReported rs) names
    → All (IsReported (r ∷ rs)) names
IsReported-later r rs [] h = tt
IsReported-later r rs (n ∷ names) h = (inr h.0, IsReported-later r rs names h.1)

Answers-IsReported :
    (names : List Bytes) (rs : List Round) → Answers names rs → All (IsReported rs) names
unfolding Answers
Answers-IsReported [] rs h = tt
Answers-IsReported (n ∷ names) [] h = absurd h
Answers-IsReported (n ∷ names) (r ∷ rs) h =
    (inl h.1, IsReported-later r rs names (Answers-IsReported names rs h.2))

module _ (hash : Bytes → Bytes) (unified : List Bytes → List Bytes → Bytes) (limit : ℕ) where
  answers :
      (look : Bytes → Sight) (now : ℕ) (names : List Bytes) (diffs : DiffDatabase)
      → All (λ n. is_empty n ≡ false) names
      → (rs : List Round) × Answers names rs
        × (alert_rounds now (
              event_task hash unified limit
                (event_rounds look (map phase_2 names ++ (([], endscan_flag) ∷ [])))
                diffs)
            ≡ rs ++ (end_round now ∷ []))
  unfolding Answers event_task phase_2
  answers look now [] diffs h = ([], tt, refl)
  answers look now (n ∷ names) diffs h =
      let (fd, e, p) = construct-path hash unified limit (look n) n true false diffs h.0 in
      let kept = (look_at hash unified limit (look n) (phase_2 n) diffs).1 in
      let (rs, a, rest) = answers look now names kept h.1 in
      let r : Round = record { running = true; item = some fd; flags = (phase_2 n).1; now = now } in
      (r ∷ rs, ((refl, refl), (p, refl), a), rw e (ap (◌∷◌ r) rest))

module _ (unit_test : Bool) (time_text : ℕ → Bytes) (block_size : ℕ) where
  abbrev alerting : List Round → Alerter → Run
  alerting = alert_task unit_test time_text block_size

  goes_on :
      (r : Round) (a : Alerter)
      → Pending a
      → (next : Alerter) × (e : Effects) × (alert_round unit_test time_text block_size r a
          ≡ ok (next, e))
        × Pending next
  goes_on r a p = elim (Outcome-cases (alert_round unit_test time_text block_size r a)) [
    | inl ((next, e), eq) ↦
        (next, e, eq, rw eq at (alert_round-Pending unit_test time_text block_size r a p))
    | inr (er, eq) ↦ absurd (rw eq at (alert_round-Pending unit_test time_text block_size r a p))
  ]

  -- Behind reports, the end of the scan changes nothing but `scan_is_running`.
  reports-end :
      (now : ℕ) (rs : List Round) (a : Alerter)
      → All IsReport rs
      → Pending a
      → ((alerting (rs ++ (end_round now ∷ [])) a).last ≡ (alerting rs a).last)
        × ((alerting (rs ++ (end_round now ∷ [])) a).finished ≡ true)
  unfolding alert_task alert_round
  reports-end now [] a all p = (refl, refl)
  reports-end now (r ∷ rs) a all p =
      let (plain, free) = report-item unit_test time_text block_size r a all.0.1 in
      let (next, e, eq, kept) = goes_on r a p in
      let (same, ended) = reports-end now rs next all.1 kept in
      rw
        (
          alert_task-next unit_test time_text block_size r (rs ++ (end_round now ∷ [])) a next e
              all.0.0 free eq,
          alert_task-next unit_test time_text block_size r rs a next e all.0.0 free eq,
        )
        (same, ground arith)

  mid_scan-requests :
      (now : ℕ) (a : Alerter)
      → Post Whatever
          (λ r. r.1.requests ≡ map phase_2 (unscanned a.db) ++ (([], endscan_flag) ∷ []))
          (mid_scan unit_test time_text block_size now a)
  unfolding mid_scan
  mid_scan-requests now a =
      let Q : Alerter × Effects → Type 0 =
        λ r. r.1.requests ≡ map phase_2 (unscanned a.db) ++ (([], endscan_flag) ∷ []) in
      Post-then Q (flush_inserts unit_test time_text block_size now (record a { in_scan = false }))
        _ (λ r. refl)

  mid_round-step :
      (now : ℕ) (a : Alerter)
      → Pending a
      → (next : Alerter) × (e : Effects) × (alert_round unit_test time_text block_size
            (mid_round now)
            a
          ≡ ok (next, e))
        × Pending next
        × (e.requests ≡ map phase_2 (unscanned a.db) ++ (([], endscan_flag) ∷ []))
  unfolding alert_round
  mid_round-step now a p =
      let Q : Alerter × Effects → Type 0 =
        λ r. r.1.requests ≡ map phase_2 (unscanned a.db) ++ (([], endscan_flag) ∷ []) in
      let (next, e, eq, kept) = goes_on (mid_round now) a p in
      (next, e, eq, kept, Post-eq-ok Q _ (mid_scan-requests now a) eq)

  asked-requests :
      (now : ℕ) (a : Alerter)
      → Pending a
      → (alerting (mid_round now ∷ []) a).requests
        ≡ map phase_2 (unscanned a.db) ++ (([], endscan_flag) ∷ [])
  unfolding alert_task
  asked-requests now a p =
      let (next, e, eq, kept, req) = mid_round-step now a p in
      ap (λ (x : Run). x.requests)
        (alert_task-next unit_test time_text block_size (mid_round now) [] a next e refl refl eq)
      ∙ (append-nil e.requests ∙ req)

  -- The scan is no longer running, and each row of the database was scanned.
  abbrev pub Ends : Run → Type 0
  Ends run =
      (run.finished ≡ true)
      × ((name : Bytes) (row : Row) → lookup name run.last.db ≡ some row → row.scanned ≡ true)

  reports-Ends :
      (now : ℕ) (rs : List Round) (a : Alerter)
      → Pending a
      → All IsReport rs
      → All (IsReported rs) (unscanned a.db)
      → Ends (alerting (mid_round now ∷ (rs ++ (end_round now ∷ []))) a)
  reports-Ends now rs a p all asked =
      let (next, e, eq, kept, req) = mid_round-step now a p in
      let (same, ended) = reports-end now rs next all kept in
      let step = λ (q : List Round).
        alert_task-next unit_test time_text block_size (mid_round now) q a next e refl refl eq in
      let last = ap (λ (x : Run). x.last.db) (step rs) in
      rw (step (rs ++ (end_round now ∷ []))) (
        ground (arith, ended),
        λ name row at.
            all_scanned unit_test time_text block_size now rs a p all asked name row
              (ap (lookup name) (last ∙ ap (λ (x : Alerter). x.db) (sym same)) ∙ at),
      )

  -- In a database with no empty name: when the first phase of a scan ends, event_task looks at the
  -- paths that alert_task asks for, whatever it finds there, and alert_task takes what was found.
  -- Then the scan is no longer running, and each row of the database was scanned.
  pub scan_finishes :
      (hash : Bytes → Bytes) (unified : List Bytes → List Bytes → Bytes) (limit : ℕ)
      (look : Bytes → Sight) (now : ℕ) (diffs : DiffDatabase) (a : Alerter)
      → Pending a
      → All (λ n. is_empty n ≡ false) (unscanned a.db)
      → let asked = (alerting (mid_round now ∷ []) a).requests in
        let found = event_task hash unified limit (event_rounds look asked) diffs in
        Ends (alerting (mid_round now ∷ alert_rounds now found) a)
  scan_finishes hash unified limit look now diffs a p names =
      let (rs, given, eq) = answers hash unified limit look now (unscanned a.db) diffs names in
      subst
        (λ (q : List PathEvent). Ends (
          alerting
            (mid_round now
              ∷ alert_rounds now (event_task hash unified limit (event_rounds look q) diffs))
            a))
        (sym (asked-requests now a p))
        (subst (λ (q : List Round). Ends (alerting (mid_round now ∷ q) a)) (sym eq)
          (reports-Ends now rs a p (Answers-IsReport _ rs given) (Answers-IsReported _ rs given)))
