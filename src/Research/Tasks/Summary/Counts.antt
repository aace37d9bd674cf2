-- ===== src/Research/Tasks/Summary/Counts.antt =====
-- What the summary of a mail counts.
use Prim.Native.Nat.{max}
use ctguard.Base.{
  ℕ, suc, ◌+◌, ◌%◌, ◌^◌, ◌≡◌, ◌<◌, refl, ap, ◌∙◌, List, [], ◌∷◌, if◌then◌else◌, Bool, true, false,
  Bool-cases, inl, inr, Bytes, beq, beq_iff, lookup, assign, lookup-assign, text_key, arith,
}
use ctguard.Research.Types.{Event}
use ctguard.Research.Tasks.Summary.{
  SummaryItem, MailSummary, no_alerts, item_or_zero, add_item, add_alert, summarise,
}
use ctguard.Research.Tasks.Mail.Batches.{highest}

abbrev pub count_at : Bytes → List (Bytes × SummaryItem) → ℕ
count_at d m = (item_or_zero (lookup d m)).count

-- How many alerts have the description.
abbrev pub occurrences : Bytes → List Event → ℕ
occurrences d [] = 0
occurrences d (e ∷ q) = if beq e.description d then suc (occurrences d q) else occurrences d q

count_at-assign :
    (k d : Bytes) (i : SummaryItem) (m : List (Bytes × SummaryItem))
    → count_at d (assign k i m) ≡ (if beq k d then i.count else count_at d m)
count_at-assign k d i m = ap (λ o. (item_or_zero o).count) (lookup-assign k d i m) ∙ ground arith

same_count :
    (k d : Bytes) (m : List (Bytes × SummaryItem))
    → (if beq k d then (count_at k m + 1) % 2 ^ 32 else count_at d m)
      ≡ (if beq k d then (count_at d m + 1) % 2 ^ 32 else count_at d m)
same_count k d m = elim (Bool-cases (beq k d)) [
  | inl y ↦
      ap (λ x. if beq k d then (count_at x m + 1) % 2 ^ 32 else count_at d m) ((beq_iff k d).0 y)
  | inr n ↦ rw n
]

add_item-count :
    (d : Bytes) (e : Event) (m : List (Bytes × SummaryItem))
    → count_at d (add_item e m)
      ≡ (if beq e.description d then (count_at d m + 1) % 2 ^ 32 else count_at d m)
unfolding add_item
add_item-count d e m = count_at-assign e.description d _ m ∙ same_count e.description d m

counted :
    (b : Bool) (n k : ℕ)
    → n < 2 ^ 32
    → ((if b then (n + 1) % 2 ^ 32 else n) + k) % 2 ^ 32 ≡ (n + (if b then suc k else k)) % 2 ^ 32
counted true n k h = omega arith
counted false n k h = refl

still_small : (b : Bool) (n : ℕ) → n < 2 ^ 32 → (if b then (n + 1) % 2 ^ 32 else n) < 2 ^ 32
still_small true n h = omega arith
still_small false n h = h

summarise-counts :
    (d : Bytes) (q : List Event) (s : MailSummary)
    → count_at d s.summary_map < 2 ^ 32
    → count_at d (summarise q s).summary_map ≡ (count_at d s.summary_map + occurrences d q) % 2 ^ 32
unfolding summarise add_alert
summarise-counts d [] s h = omega arith
summarise-counts d (e ∷ q) s h =
    let m = s.summary_map in
    let rest =
      summarise-counts d q (add_alert e s)
        (rw (add_item-count d e m) (still_small (beq e.description d) (count_at d m) h)) in
    rest
    ∙ ap (λ n. (n + occurrences d q) % 2 ^ 32) (add_item-count d e m)
    ∙ counted (beq e.description d) (count_at d m) (occurrences d q) h

summarise-max :
    (q : List Event) (s : MailSummary) → (summarise q s).max_alert ≡ max s.max_alert (highest q)
unfolding summarise add_alert
summarise-max [] s = omega arith
summarise-max (e ∷ q) s = summarise-max q (add_alert e s) ∙ ground arith

-- A mail's summary counts, for each description, the alerts in the mail that have it, modulo 2^32,
-- and the mail's subject names the highest priority among all of them.
pub summarise-count :
    (d : Bytes) (q : List Event)
    → (count_at d (summarise q no_alerts).summary_map ≡ occurrences d q % 2 ^ 32)
      × ((summarise q no_alerts).max_alert ≡ highest q)
unfolding lookup
summarise-count d q = (
  summarise-counts d q no_alerts (omega arith) ∙ omega arith,
  summarise-max q no_alerts ∙ omega arith,
)
