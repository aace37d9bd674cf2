-- ===== src/Logscan/Logfile/Unfinished.antt =====
-- A file that is read in the middle of a line.
use ctguard.Base.{
  ℕ, suc, ◌≤◌, ◌≡◌, refl, ◌∙◌, ap, Bool, true, false, not, List, [], ◌∷◌, ◌++◌, append-nil,
  append_assoc, Option, none, some, Bytes, ◌==◌, is_empty, length, length-append, arith, Bool-cases,
  ==_iff, inl, inr,
}
use ctguard.Logscan.Logfile.{
  Logfile, Look, and_then, check_size, read_lines, read_from, read_stream, scan_file, follow,
}
use ctguard.Logscan.Logfile.Steps.{
  logged, logged-append, check_size-same, check_size-more, scan-open,
}
use ctguard.Logscan.Lines.{lines}
use ctguard.Logscan.Logfile.Reading.{
  snoc_nonempty, lines-blank, is_closed, IsBlank, read_lines-lines, seek-append,
}
use ctguard.Logscan.Logfile.Follows.{Current, Shows, logged-map, closed-blank}

read_lines-unfinished :
    (last : Option ℕ) (p : ℕ) (line text : Bytes)
    → is_closed (not (is_empty line)) text ≡ false
    → (read_lines last p line text).1 ≡ none
unfolding read_lines is_closed
read_lines-unfinished last p line [] h = ground arith
read_lines-unfinished last p line (c ∷ cs) h = ground (
  arith,
  read_lines-unfinished last (suc p) [] cs,
  read_lines-unfinished (some (suc p)) (suc p) [] cs,
  read_lines-unfinished last (suc p) (line ++ (c ∷ [])) cs,
  snoc_nonempty line c,
)

-- The file is open, but has the position -1.
abbrev Stuck : ℕ → ℕ → Logfile → Type 0
Stuck inode m ls =
    (ls.fd ≡ true)
    × (ls.down ≡ false)
    × (ls.inode ≡ inode)
    × (ls.size ≡ some m)
    × (ls.position ≡ none)

-- From look to look the file has the same inode and is no shorter.
abbrev pub Longer : ℕ → ℕ → List Look → Type 0
Longer inode m [] = Unit
Longer inode m (look ∷ looks) =
    (n : ℕ) × (look.stat ≡ some (inode, n)) × (m ≤ n) × Longer inode n looks

abbrev Silent : ℕ → ℕ → List Bytes → Logfile → Type 0
Silent inode n out last = (out ≡ []) × Stuck inode n last

module _ (unit_test : Bool) where
  from-Silent :
      (look : Look) (inode n : ℕ) (content : Bytes) (ls : Logfile) (at : Option ℕ)
      → Stuck inode n ls
      → at ≡ none
      → let s = read_from unit_test look ls content at in Silent inode n (logged s.0) s.1
  unfolding read_from logged
  from-Silent look inode n content ls none st e = (refl, st)
  from-Silent look inode n content ls (some p) st e = absurd cc

  stream-Silent :
      (look : Look) (inode n : ℕ) (stream : Option Bytes) (ls : Logfile)
      → Stuck inode n ls
      → let s = read_stream unit_test look stream ls in Silent inode n (logged s.0) s.1
  unfolding read_stream logged
  stream-Silent look inode n none ls st = (refl, st)
  stream-Silent look inode n (some content) ls st =
      from-Silent look inode n content ls ls.position st st.4

  size-Silent :
      (look : Look) (inode m n : ℕ) (ls : Logfile)
      → Stuck inode m ls
      → m ≤ n
      → let s =
          and_then (check_size unit_test look n ls) (read_stream unit_test look look.stream) in
        Silent inode n (logged s.0) s.1
  unfolding and_then logged
  size-Silent look inode m n ls st h = elim (Bool-cases (m == n)) [
    | inl e ↦
        (let size = st.3 ∙ ap some ((==_iff m n).0 e) in
          rw (check_size-same unit_test look n ls size) (refl, (st.0, st.1, st.2, size, st.4)))
    | inr e ↦ rw (check_size-more unit_test look m n ls st.3 (ground arith)) (
        stream-Silent look inode n look.stream (record ls { size = some n })
          (st.0, st.1, st.2, refl, st.4))
  ]

  follow-Silent :
      (inode m : ℕ) (looks : List Look) (ls : Logfile)
      → Stuck inode m ls
      → Longer inode m looks
      → logged (follow unit_test looks ls).0 ≡ []
  unfolding follow logged
  follow-Silent inode m [] ls st h = refl
  follow-Silent inode m (look ∷ looks) ls st (n, shows, more, rest) =
      let (quiet, still) =
        scan-open unit_test look (Silent inode n) inode n ls st.0 st.1 st.2 shows
          (λ late. size-Silent look inode m n (record ls { timeout_triggered = late }) st more) in
      rw (logged-append (scan_file unit_test look ls).0 _, quiet)
        (follow-Silent inode n looks (scan_file unit_test look ls).1 still rest)

  -- The reading that meets the unfinished line.
  from-Stuck :
      (look : Look) (inode : ℕ) (ls : Logfile) (a b d : Bytes)
      → ls.fd ≡ true
      → ls.down ≡ false
      → ls.inode ≡ inode
      → ls.size ≡ some (length (a ++ (b ++ d)))
      → IsBlank b
      → is_closed false d ≡ false
      → let s = read_from unit_test look ls (a ++ (b ++ d)) (some (length a)) in
        (logged s.0 ≡ lines [] d) × Stuck inode (length (a ++ (b ++ d))) s.1
  unfolding read_from
  from-Stuck look inode ls a b d up there same sized blank unfinished =
      rw (seek-append a (b ++ d)) (
        logged-map unit_test look.now ls.config.path _
            ∙ read_lines-lines (some (length a)) (length a) [] (b ++ d)
            ∙ lines-blank b d blank,
        (
          up,
          there,
          same,
          sized,
          read_lines-unfinished (some (length a)) (length a) [] (b ++ d)
              (closed-blank b d blank ∙ unfinished),
        ),
      )

  read-Stuck :
      (look : Look) (inode : ℕ) (content d : Bytes) (ls : Logfile)
      → Current inode content ls
      → is_closed false d ≡ false
      → let s =
          read_stream unit_test look
            (some (content ++ d))
            (record ls { size = some (length (content ++ d)) }) in
        (logged s.0 ≡ lines [] d) × Stuck inode (length (content ++ d)) s.1
  unfolding read_stream
  read-Stuck look inode content d ls (up, there, same, sized, (a, b, e, at, blank)) unfinished =
      let joined : content ++ d ≡ a ++ (b ++ d) = ap (λ t. t ++ d) e ∙ append_assoc a b d in
      rw (joined, at)
        (from-Stuck look inode (record ls { size = some (length (a ++ (b ++ d))) }) a b d up there
          same refl blank unfinished)

  size-Stuck :
      (look : Look) (inode : ℕ) (content d : Bytes) (ls : Logfile)
      → Current inode content ls
      → is_closed false d ≡ false
      → let s =
          and_then
            (check_size unit_test look (length (content ++ d)) ls)
            (read_stream unit_test look (some (content ++ d))) in
        (logged s.0 ≡ lines [] d) × Stuck inode (length (content ++ d)) s.1
  unfolding and_then is_closed
  size-Stuck look inode content [] ls cur unfinished = absurd cc
  size-Stuck look inode content (x ∷ d) ls cur unfinished =
      rw
        (check_size-more unit_test look (length content) (length (content ++ (x ∷ d))) ls cur.3
          (omega (arith, length-append content (x ∷ d))))
        (read-Stuck look inode content (x ∷ d) ls cur unfinished)

-- If a file that was read to its end has grown by a text whose last line is not finished yet, the
-- lines of this text are queued, the piece included; but as long as the file keeps its inode and
-- does not get shorter, no line is queued from then on, whatever is appended.
pub follow-unfinished :
    (unit_test : Bool) (inode : ℕ) (content d : Bytes) (look : Look) (looks : List Look)
    (ls : Logfile)
    → Current inode content ls
    → Shows inode (content ++ d) look
    → is_closed false d ≡ false
    → Longer inode (length (content ++ d)) looks
    → logged (follow unit_test (look ∷ looks) ls).0 ≡ lines [] d
unfolding follow
follow-unfinished unit_test inode content d look looks ls cur shows unfinished longer =
    let (new, stuck) =
      scan-open unit_test look
        (λ out last. (out ≡ lines [] d) × Stuck inode (length (content ++ d)) last) inode
        (length (content ++ d)) ls cur.0 cur.1 cur.2 shows.0
        (λ late. rw shows.1 (
          size-Stuck unit_test look inode content d (record ls { timeout_triggered = late }) cur
            unfinished)) in
    rw
      (
        logged-append (scan_file unit_test look ls).0
            (follow unit_test looks (scan_file unit_test look ls).1).0,
        new,
        follow-Silent unit_test inode (length (content ++ d)) looks (scan_file unit_test look ls).1
            stuck longer,
      )
      (append-nil (lines [] d))
