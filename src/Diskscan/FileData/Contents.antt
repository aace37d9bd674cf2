-- ===== src/Diskscan/FileData/Contents.antt =====
-- Two looks at a text file, and what is compared.
use mathlib.Core.Path.{subst}
use ctguard.Base.{
  ℕ, ◌≡◌, refl, sym, ◌∙◌, ap, true, false, List, [], ◌∷◌, ◌++◌, append-nil, append_assoc, concat,
  All, some, Bytes, ltb, is_empty, contains, nat_key, assign, lookup-assign, beq_iff, text_key,
  arith, if◌then◌else◌,
}
use ctguard.Diskscan.Mode.{format_of}
use ctguard.Diskscan.FileData.{
  file, FileData, Stat, Sight, DiffDatabase, found_file, gather, split_lines, stored,
  compare_content, check_file, construct_found, construct,
}

-- A chunk of a text.
abbrev IsText : Bytes → Type 0
IsText c = contains 0 c ≡ false

gather-text :
    (content : Bytes) (chunks : List Bytes)
    → All IsText chunks
    → gather true content chunks ≡ (true, content ++ concat chunks)
unfolding gather
gather-text content [] t = ap (λ (c : Bytes). (true, c)) (sym (append-nil content))
gather-text content (c ∷ cs) t = rw t.0 (
    gather-text (content ++ c) cs t.1
    ∙ ap (λ (x : Bytes). (true, x)) (append_assoc content c (concat cs)))

stored-assign :
    (path text : Bytes) (diffs : DiffDatabase) → stored path (assign path text diffs) ≡ text
unfolding stored
stored-assign path text diffs =
    ground (arith, lookup-assign path path text diffs, beq_iff path path)

-- A regular text file below the limit, which is read to its end.
pub record IsTextFile (limit : ℕ) (sight : Sight) : Type 0 where
  pub status : Stat
  pub found : sight.stat ≡ some status
  pub regular : format_of status.st_mode ≡ 8
  pub small : ltb status.st_size limit ≡ true
  pub opened : sight.opened ≡ true
  pub read_well : sight.read_well ≡ true
  pub text : All IsText sight.chunks

module _ (hash : Bytes → Bytes) (unified : List Bytes → List Bytes → Bytes) (limit : ℕ) where
  -- What was seen of the text file. There is a difference only to a text that is not empty.
  pub record Seen (text : Bytes) (old : Bytes) (fd : FileData) : Type 0 where
    pub exists : fd.exists ≡ true
    pub checked : fd.content_checked ≡ true
    pub hashed : fd.sha256 ≡ hash text
    pub compared :
        fd.diff ≡ (if is_empty old then [] else unified (split_lines old) (split_lines text))

  check_file-text :
      (sight : Sight) (fd : FileData) (diffs : DiffDatabase)
      → All IsText sight.chunks
      → ltb fd.size limit ≡ true
      → sight.opened ≡ true
      → sight.read_well ≡ true
      → fd.exists ≡ true
      → fd.diff ≡ []
      → ((check_file hash unified limit sight true fd diffs).1
          ≡ assign fd.path (concat sight.chunks) diffs)
        × Seen
            (concat sight.chunks)
            (stored fd.path diffs)
            (check_file hash unified limit sight true fd diffs).0
  unfolding check_file compare_content
  check_file-text sight fd diffs t s o w e d =
      rw (s, gather-text [] sight.chunks t, o, w)
        (
          refl,
          record {
            exists = ground arith;
            checked = refl;
            hashed = ground arith;
            compared = ground arith;
          },
        )

  -- A text file is read to its end, its text is hashed, compared with the stored one and stored.
  text_file :
      (sight : Sight) (path : Bytes) (diffs : DiffDatabase)
      → IsTextFile limit sight
      → is_empty path ≡ false
      → (fd : FileData) × (construct hash unified limit sight path true true diffs
          ≡ (some fd, assign path (concat sight.chunks) diffs))
        × Seen (concat sight.chunks) (stored path diffs) fd
  unfolding construct construct_found found_file
  text_file sight path diffs h p =
      let fd = record (found_file sight path h.status) { type = file } in
      let r = check_file hash unified limit sight true fd diffs in
      let facts = check_file-text sight fd diffs h.text h.small h.opened h.read_well refl refl in
      (
        r.0,
        rw (p, h.found, construct_found)
            (rw h.regular (ap (λ (d : DiffDatabase). (some (r.0), d)) facts.0)),
        facts.1,
      )

  -- A text file that is looked at twice with checkdiff, each time below the limit and read to its
  -- end, whatever the database held before: the second look finds it, with its content checked, and
  -- has the hash of what it read. If the first text was not empty, its difference is the unified one
  -- from the lines of the first text to those of the second; otherwise it has no difference.
  pub second_look :
      (first second : Sight) (path : Bytes) (diffs : DiffDatabase)
      → IsTextFile limit first
      → IsTextFile limit second
      → is_empty path ≡ false
      → (fd : FileData) × (kept : DiffDatabase) × (construct hash unified limit second path true
            true
            (construct hash unified limit first path true true diffs).1
          ≡ (some fd, kept))
        × Seen (concat second.chunks) (concat first.chunks) fd
  second_look first second path diffs h k p =
      let text = concat first.chunks in
      let (fd1, e1, s1) = text_file first path diffs h p in
      let (fd2, e2, s2) = text_file second path (assign path text diffs) k p in
      (
        fd2,
        assign path (concat second.chunks) (assign path text diffs),
        rw e1 e2,
        subst (λ old. Seen (concat second.chunks) old fd2) (stored-assign path text diffs) s2,
      )
