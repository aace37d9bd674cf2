-- ===== src/Logscan/Logfile/Follows.antt =====
-- A file that grows by whole lines.
use ctguard.Base.{
  ℕ, ◌≡◌, refl, sym, ◌∙◌, ap, Bool, true, false, List, [], ◌∷◌, ◌++◌, map, append-nil, append_assoc,
  some, Bytes, is_empty, length, length-append, arith, concat,
}
use ctguard.Logscan.Config.{LogfileConfig}
use ctguard.Logscan.Logfile.{
  Logfile, Look, Scan, log_2_se, and_then, check_size, read_from, read_stream, scan_file, open_file,
  open_stat, restore, follow,
}
use ctguard.Logscan.Logfile.Steps.{
  logged, logged-append, check_size-same, check_size-more, scan-open,
}
use ctguard.Logscan.Lines.{lines}
use ctguard.Logscan.Logfile.Reading.{
  lines-append, lines-blank, is_closed, IsBlank, Settled, read_lines-lines, read_lines-Settled,
  seek-append,
}

-- The file is open, and what it holds was read, up to newlines at the end.
abbrev pub Current : ℕ → Bytes → Logfile → Type 0
Current inode content ls =
    (ls.fd ≡ true)
    × (ls.down ≡ false)
    × (ls.inode ≡ inode)
    × (ls.size ≡ some (length content))
    × Settled ls.position content

-- The system shows the file with this content.
abbrev pub Shows : ℕ → Bytes → Look → Type 0
Shows inode content look = (look.stat ≡ some (inode, length content)) × (look.stream ≡ some content)

pub logged-map :
    (unit_test : Bool) (now : ℕ) (path : Bytes) (ls : List Bytes)
    → logged (map (log_2_se unit_test now path false) ls) ≡ ls
unfolding logged log_2_se
logged-map unit_test now path [] = refl
logged-map unit_test now path (x ∷ ls) = ap (λ t. x ∷ t) (logged-map unit_test now path ls)

pub closed-blank : (a d : Bytes) → IsBlank a → is_closed false (a ++ d) ≡ is_closed false d
unfolding is_closed
closed-blank [] d h = refl
closed-blank (c ∷ a) d h = rw h.0 (closed-blank a d h.1)

module _ (unit_test : Bool) (look : Look) (inode : ℕ) (text d : Bytes) where
  -- The scan yields the lines of d, and the file is read up to the end of the text.
  abbrev Good : Scan → Type 0
  Good s = (logged s.0 ≡ lines [] d) × Current inode text s.1

-- What stands behind the last position, read.
read_from-Good :
    (unit_test : Bool) (look : Look) (inode : ℕ) (ls : Logfile) (a b d : Bytes)
    → ls.fd ≡ true
    → ls.down ≡ false
    → ls.inode ≡ inode
    → ls.size ≡ some (length (a ++ (b ++ d)))
    → IsBlank b
    → is_closed false d ≡ true
    → Good unit_test look inode
        (a ++ (b ++ d))
        d
        (read_from unit_test look ls (a ++ (b ++ d)) (some (length a)))
unfolding read_from
read_from-Good unit_test look inode ls a b d up there same sized blank whole =
    rw (seek-append a (b ++ d)) (
      logged-map unit_test look.now ls.config.path _
          ∙ read_lines-lines (some (length a)) (length a) [] (b ++ d)
          ∙ lines-blank b d blank,
      (
        up,
        there,
        same,
        sized,
        read_lines-Settled (some (length a)) [] a (b ++ d) (closed-blank b d blank ∙ whole)
            (λ e. (a, [], sym (append-nil a), refl, tt)),
      ),
    )

module _ (unit_test : Bool) (look : Look) (inode : ℕ) (content : Bytes) where
  read-Good :
      (d : Bytes) (ls : Logfile)
      → Current inode content ls
      → is_closed false d ≡ true
      → Good unit_test look inode (content ++ d) d (
          read_stream unit_test look
            (some (content ++ d))
            (record ls { size = some (length (content ++ d)) }))
  unfolding read_stream
  read-Good d ls (up, there, same, sized, (a, b, e, at, blank)) whole =
      let joined : content ++ d ≡ a ++ (b ++ d) = ap (λ t. t ++ d) e ∙ append_assoc a b d in
      rw (joined, at)
        (read_from-Good unit_test look inode (record ls { size = some (length (a ++ (b ++ d))) }) a
          b d up there same refl blank whole)

  size-Good :
      (d : Bytes) (ls : Logfile)
      → Current inode content ls
      → is_closed false d ≡ true
      → Good unit_test look inode (content ++ d) d (
          and_then
            (check_size unit_test look (length (content ++ d)) ls)
            (read_stream unit_test look (some (content ++ d))))
  unfolding and_then logged lines is_empty
  size-Good [] ls cur whole =
      rw (append-nil content, check_size-same unit_test look (length content) ls cur.3) (refl, cur)
  size-Good (x ∷ d) ls cur whole =
      rw
        (check_size-more unit_test look (length content) (length (content ++ (x ∷ d))) ls cur.3
          (omega (arith, length-append content (x ∷ d))))
        (read-Good (x ∷ d) ls cur whole)

  -- One scan of a file that has grown by whole lines, or not at all.
  pub scan_file-Good :
      (d : Bytes) (ls : Logfile)
      → Current inode content ls
      → Shows inode (content ++ d) look
      → is_closed false d ≡ true
      → (logged (scan_file unit_test look ls).0 ≡ lines [] d)
        × Current inode (content ++ d) (scan_file unit_test look ls).1
  unfolding scan_file
  scan_file-Good d ls cur shows whole =
      scan-open unit_test look (λ out last. (out ≡ lines [] d) × Current inode (content ++ d) last)
        inode (length (content ++ d)) ls cur.0 cur.1 cur.2 shows.0
        (λ late. rw shows.1 (size-Good d (record ls { timeout_triggered = late }) cur whole))

-- From look to look the file has grown by one of the texts, each of whole lines.
abbrev pub Grows : ℕ → Bytes → List Bytes → List Look → Type 0
Grows inode content [] [] = Unit
Grows inode content (d ∷ ds) (look ∷ looks) =
    Shows inode (content ++ d) look
    × (is_closed false d ≡ true)
    × Grows inode (content ++ d) ds looks
Grows inode content _ _ = ⊥

follow-Good :
    (unit_test : Bool) (inode : ℕ) (content : Bytes) (ds : List Bytes) (looks : List Look)
    (ls : Logfile)
    → Current inode content ls
    → Grows inode content ds looks
    → logged (follow unit_test looks ls).0 ≡ lines [] (concat ds)
unfolding follow logged lines is_empty
follow-Good unit_test inode content [] [] ls cur g = refl
follow-Good unit_test inode content [] (look ∷ looks) ls cur g = absurd g
follow-Good unit_test inode content (d ∷ ds) [] ls cur g = absurd g
follow-Good unit_test inode content (d ∷ ds) (look ∷ looks) ls cur g =
    let (new, now) = scan_file-Good unit_test look inode content d ls cur g.0 g.1 in
    let more =
      follow-Good unit_test inode (content ++ d) ds looks (scan_file unit_test look ls).1 now g.2 in
    rw
      (
        logged-append (scan_file unit_test look ls).0
            (follow unit_test looks (scan_file unit_test look ls).1).0,
        new,
        more,
      )
      (sym (lines-append [] d (concat ds) g.1))

open_file-Current :
    (unit_test : Bool) (look : Look) (inode : ℕ) (content : Bytes) (lc : LogfileConfig)
    → look.opened ≡ true
    → Shows inode content look
    → Current inode content (open_file unit_test look [] lc).1
unfolding open_file open_stat restore
open_file-Current unit_test look inode content lc up shows =
    rw (up, shows.0) (refl, refl, refl, refl, (content, [], sym (append-nil content), refl, tt))

-- A file that is opened without a saved state, and from then on keeps its inode and grows only by
-- whole lines, is followed exactly: the lines that are queued are the lines of all that is appended
-- to it, each once and in order, however the growth falls on the rounds; empty lines are left out.
pub follow-lines :
    (unit_test : Bool) (start : Look) (inode : ℕ) (content : Bytes) (lc : LogfileConfig)
    (ds : List Bytes) (looks : List Look)
    → start.opened ≡ true
    → Shows inode content start
    → Grows inode content ds looks
    → logged (follow unit_test looks (open_file unit_test start [] lc).1).0 ≡ lines [] (concat ds)
follow-lines unit_test start inode content lc ds looks up shows grows =
    follow-Good unit_test inode content ds looks _
      (open_file-Current unit_test start inode content lc up shows) grows
