-- ===== src/Research/Tasks/Summary.antt =====
pub mod Counts
-- `send_mail_queue`: the numbers of an alert mail. The mail's text and its sending are not modelled.
use ctguard.Base.{
  ℕ, ◌+◌, ◌%◌, ◌^◌, List, [], ◌∷◌, Option, none, some, ltb, if◌then◌else◌, Bytes, length, lookup,
  assign, text_key,
}
use ctguard.Research.Types.{Event, InterventionRule}

-- `summary_item`
pub record SummaryItem : Type 0 where
  pub count : ℕ
  pub id : ℕ
  pub priority : ℕ

pub record MailSummary : Type 0 where
  pub summary_map : List (Bytes × SummaryItem)
  pub interventions : ℕ
  pub interventions_details : List (Bytes × ℕ)
  pub max_alert : ℕ

abbrev pub no_alerts : MailSummary
no_alerts = record {
  summary_map = [];
  interventions = 0;
  interventions_details = [];
  max_alert = 0;
}

-- `summary_map[key]` and `interventions_details[key]`: a missing entry is zero.
abbrev pub item_or_zero : Option SummaryItem → SummaryItem
item_or_zero none = record { count = 0; id = 0; priority = 0 }
item_or_zero (some i) = i

abbrev pub count_or_zero : Option ℕ → ℕ
count_or_zero none = 0
count_or_zero (some n) = n

-- The counts are of type `unsigned`.
unfoldable pub add_item : Event → List (Bytes × SummaryItem) → List (Bytes × SummaryItem)
add_item ev m =
    let old = item_or_zero (lookup ev.description m) in
    assign ev.description
      (record { count = (old.count + 1) % 2 ^ 32; id = ev.rule_id; priority = ev.priority }) m

unfoldable pub add_details : List InterventionRule → List (Bytes × ℕ) → List (Bytes × ℕ)
add_details [] m = m
add_details (it ∷ its) m =
    add_details its (assign it.name ((count_or_zero (lookup it.name m) + 1) % 2 ^ 32) m)

-- The loop's body for one alert.
unfoldable pub add_alert : Event → MailSummary → MailSummary
unfolding add_item add_details
add_alert ev s = record {
  summary_map = add_item ev s.summary_map;
  interventions = s.interventions + length ev.interventions;
  interventions_details = add_details ev.interventions s.interventions_details;
  max_alert = if ltb s.max_alert ev.priority then ev.priority else s.max_alert;
}

unfoldable pub summarise : List Event → MailSummary → MailSummary
unfolding add_alert
summarise [] s = s
summarise (ev ∷ q) s = summarise q (add_alert ev s)
