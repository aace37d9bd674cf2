-- ===== src/Logscan/Logfile/Steps.antt =====
-- The steps of a scan of a file that is open and is the same as before.
use ctguard.Base.{
  ℕ, ◌<◌, ◌≡◌, refl, sym, Bool, true, false, not, ◌||◌, ==_iff, if-both, List, [], ◌∷◌, ◌++◌,
  Option, some, Bytes, codes, if◌then◌else◌, arith,
}
use ctguard.Research.Types.{SourceEvent}
use ctguard.Logscan.Logfile.{
  Logfile, Look, Scan, log_2_se, and_then, same_size, smaller, notice, is_late, check_timeout,
  revive, check_inode, check_size, read_stream, check_stat, scan_file,
}

-- The lines among the events.
unfoldable pub logged : List SourceEvent → List Bytes
logged [] = []
logged (se ∷ ses) = if se.control_message then logged ses else se.message ∷ logged ses

pub logged-append : (a b : List SourceEvent) → logged (a ++ b) ≡ logged a ++ logged b
unfolding logged
logged-append [] b = refl
logged-append (se ∷ a) b = ground (arith, logged-append a b)

module _ (unit_test : Bool) (look : Look) where
  pub revive-open :
      (ls : Logfile) → ls.fd ≡ true → ls.down ≡ false → revive unit_test look ls ≡ ([], ls, true)
  unfolding revive
  revive-open ls up there =
      let closed : (not ls.fd || ls.down) ≡ false = ground arith in rw closed refl

  pub check_inode-same :
      (inode : ℕ) (ls : Logfile)
      → ls.inode ≡ inode
      → check_inode unit_test look inode ls ≡ ([], ls, true)
  unfolding check_inode
  check_inode-same inode ls e = rw ((==_iff inode ls.inode).1 (sym e)) refl

  check_timeout-either :
      (P : Scan → Type 0) (ls : Logfile)
      → P (
        notice unit_test look ls (codes "!Timeout alert") ∷ [],
        record ls { timeout_triggered = true },
        true,
      )
      → P ([], ls, true)
      → P (check_timeout unit_test look ls)
  unfolding check_timeout
  check_timeout-either P ls h k = if-both P (is_late unit_test look ls) _ _ h k

  pub check_size-same :
      (n : ℕ) (ls : Logfile) → ls.size ≡ some n → check_size unit_test look n ls ≡ ([], ls, false)
  unfolding check_size
  check_size-same n ls e =
      let same : same_size n ls.size ≡ true = rw (e, same_size) ((==_iff n n).1 refl) in
      rw same refl

  pub check_size-more :
      (m n : ℕ) (ls : Logfile)
      → ls.size ≡ some m
      → m < n
      → check_size unit_test look n ls ≡ ([], record ls { size = some n }, true)
  unfolding check_size
  check_size-more m n ls e h =
      let other : same_size n ls.size ≡ false = rw (e, same_size) (ground arith) in
      let more : smaller n ls.size ≡ false = rw (e, smaller) (ground arith) in rw (other, more) refl

  stat-open :
      (inode n : ℕ) (ls : Logfile)
      → ls.inode ≡ inode
      → check_stat unit_test look (some (inode, n)) ls
        ≡ and_then (check_size unit_test look n ls) (read_stream unit_test look look.stream)
  unfolding check_stat
  stat-open inode n ls e = rw (check_inode-same inode ls e) refl

  rest-open :
      (inode n : ℕ) (st : Option (ℕ × ℕ)) (ls : Logfile)
      → ls.fd ≡ true
      → ls.down ≡ false
      → ls.inode ≡ inode
      → st ≡ some (inode, n)
      → and_then (revive unit_test look ls) (check_stat unit_test look st)
        ≡ and_then (check_size unit_test look n ls) (read_stream unit_test look look.stream)
  unfolding and_then
  rest-open inode n st ls up there same e =
      rw (e, revive-open ls up there) (stat-open inode n ls same)

  after_timeout :
      (P : List Bytes → Logfile → Type 0) (next : Logfile → Scan) (ls : Logfile)
      → ((late : Bool)
          → let s = next (record ls { timeout_triggered = late }) in P (logged s.0) s.1)
      → let s = and_then (check_timeout unit_test look ls) next in P (logged s.0) s.1
  unfolding and_then logged notice log_2_se
  after_timeout P next ls h =
      check_timeout-either (λ s. let r = and_then s next in P (logged r.0) r.1) ls (h true)
        (h ls.timeout_triggered)

  -- A scan checks the size and reads; a warning may come before, and is no line.
  pub scan-open :
      (P : List Bytes → Logfile → Type 0) (inode n : ℕ) (ls : Logfile)
      → ls.fd ≡ true
      → ls.down ≡ false
      → ls.inode ≡ inode
      → look.stat ≡ some (inode, n)
      → ((late : Bool)
          → let s =
              and_then
                (check_size unit_test look n (record ls { timeout_triggered = late }))
                (read_stream unit_test look look.stream) in
            P (logged s.0) s.1)
      → P (logged (scan_file unit_test look ls).0) (scan_file unit_test look ls).1
  unfolding scan_file
  scan-open P inode n ls up there same shows h =
      after_timeout P
        (λ found. and_then (revive unit_test look found) (check_stat unit_test look look.stat)) ls
        (λ late.
          rw
            (rest-open inode n look.stat (record ls { timeout_triggered = late }) up there same
              shows)
            (h late))
