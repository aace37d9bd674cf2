-- ===== src/Diskscan/Scan/Below.antt =====
-- What a scan reports: everything below the directory.
use mathlib.Core.Path.{subst}
use ctguard.Base.{
  ◌≡◌, refl, ◌↔◌, Bool, true, false, List, [], ◌∷◌, Any, inl, inr, ◌⊎◌, Bytes, if◌then◌else◌,
  if-both, Any-append_left, Any-append_right, Any-split, Bool-cases, ap,
}
use ctguard.Diskscan.Scan.{Dir, nil, failed, entry, PathEvent, is_dot, child_path, scan_flags, scan}

-- The entries of a directory, and of the directories in it, with their paths: `.` and `..` are none.
pub data IsBelow : Bytes → Dir → Bytes → Type 0 where
  here :
      {path name : Bytes} {is_dir : Bool} {inner rest : Dir}
      → is_dot name ≡ false
      → IsBelow path (entry name is_dir inner rest) (child_path path name)
  inside :
      {path name p : Bytes} {inner rest : Dir}
      → is_dot name ≡ false
      → IsBelow (child_path path name) inner p
      → IsBelow path (entry name true inner rest) p
  behind :
      {path p : Bytes} (name : Bytes) (is_dir : Bool) (inner rest : Dir)
      → IsBelow path rest p
      → IsBelow path (entry name is_dir inner rest) p

Any-tail : {A : Type 0} (P : A → Type 0) (x : A) (xs : List A) → Any P (x ∷ xs) → P x ⊎ Any P xs
Any-tail P x xs m = m

module _ (check_diff : Bool) where
  -- The path is reported, with the content and the database to be looked at.
  abbrev pub IsScanned : Bytes → List PathEvent → Type 0
  IsScanned p = Any (λ e. e ≡ (p, scan_flags check_diff))

  scan-later :
      (path name : Bytes) (is_dir : Bool) (inner rest : Dir) (p : Bytes)
      → IsScanned p (scan true check_diff path rest)
      → IsScanned p (scan true check_diff path (entry name is_dir inner rest))
  unfolding scan
  scan-later path name is_dir inner rest p m = if-both (IsScanned p) (is_dot name) _ _ m (
      inr (
        Any-append_right _
          (if is_dir then scan true check_diff (child_path path name) inner else []) _ m))

  scanned :
      (path : Bytes) (dir : Dir) (p : Bytes)
      → IsBelow path dir p
      → IsScanned p (scan true check_diff path dir)
  unfolding scan
  scanned path d p (here dot) = rw dot (inl refl)
  scanned path d p (inside dot b) = rw dot (inr (Any-append_left _ _ _ (scanned _ _ p b)))
  scanned path d p (behind name is_dir inner rest b) =
      scan-later path name is_dir inner rest p (scanned path rest p b)

  found :
      (path : Bytes) (dir : Dir) (p : Bytes)
      → IsScanned p (scan true check_diff path dir)
      → IsBelow path dir p
  unfolding scan
  found path nil p m = absurd m
  found path failed p m = absurd m
  found path (entry name true inner rest) p m = elim (Bool-cases (is_dot name)) [
    | inl dot ↦ behind name true inner rest (found path rest p (rw dot at m))
    | inr free ↦ elim (Any-tail _ _ _ (rw free at m)) [
      | inl e ↦
          subst (IsBelow path (entry name true inner rest)) (ap (λ (x : PathEvent). x.0) e)
            (here free)
      | inr more ↦ elim (Any-split _ (scan true check_diff (child_path path name) inner) _ more) [
        | inl below ↦ inside free (found (child_path path name) inner p below)
        | inr later ↦ behind name true inner rest (found path rest p later)
      ]
    ]
  ]
  found path (entry name false inner rest) p m = elim (Bool-cases (is_dot name)) [
    | inl dot ↦ behind name false inner rest (found path rest p (rw dot at m))
    | inr free ↦ elim (Any-tail _ _ _ (rw free at m)) [
      | inl e ↦
          subst (IsBelow path (entry name false inner rest)) (ap (λ (x : PathEvent). x.0) e)
            (here free)
      | inr later ↦ behind name false inner rest (found path rest p later)
    ]
  ]

  -- A recursive scan reports a path exactly when it is that of an entry of the directory, or of a
  -- directory in it at any depth, `.` and `..` aside.
  pub scan-IsBelow :
      (path : Bytes) (dir : Dir) (p : Bytes)
      → IsScanned p (scan true check_diff path dir) ↔ IsBelow path dir p
  scan-IsBelow path dir p = (found path dir p, scanned path dir p)
