-- ===== src/Research/Tasks/Mail.antt =====
-- `mail_task`: alerts are gathered and sent in batches.
pub mod Batches
use ctguard.Base.{
  ℕ, ◌+◌, Bool, true, false, not, ◌&&◌, ◌||◌, List, [], ◌∷◌, ◌++◌, Option, none, some, ltb, leb,
  is_empty, length, if◌then◌else◌,
}
use ctguard.Research.Types.{Event}
use ctguard.Research.Config.{Config}

pub record Mailer : Type 0 where
  pub local_queue : List Event
  pub max_priority : ℕ
  pub last_send : ℕ
  pub last_event : ℕ

abbrev pub fresh_mailer : Mailer
fresh_mailer = record { local_queue = []; max_priority = 0; last_send = 0; last_event = 0 }

-- The readings of `std::time(nullptr)` in one round, one for each place in the text.
pub record Readings : Type 0 where
  pub at_event : ℕ
  pub at_interval : ℕ
  pub at_sample : ℕ
  pub at_count : ℕ
  pub at_send : ℕ

-- `opt_e->priority() >= cfg.mail_priority || opt_e->always_alert()`
unfoldable pub is_mailed : Config → Event → Bool
is_mailed cfg e = leb cfg.mail_priority e.priority || e.always_alert

-- The first half of a round: what `take` with a second's patience gives.
unfoldable pub accept : Config → Readings → Option Event → Mailer → Mailer
accept cfg t none m = m
accept cfg t (some e) m =
    if is_mailed cfg e
    then record m {
      local_queue = m.local_queue ++ (e ∷ []);
      max_priority = if ltb m.max_priority e.priority then e.priority else m.max_priority;
      last_event = t.at_event;
    }
    else m

-- The condition on which a round sends.
unfoldable pub is_time : Config → Readings → Mailer → Bool
is_time cfg t m =
    leb cfg.mail_instant m.max_priority
    || (leb (m.last_send + cfg.mail_interval) t.at_interval
        && leb (m.last_event + cfg.mail_sample_time) t.at_sample)
    || (leb cfg.mail_max_sample_count (length m.local_queue) && ltb m.last_send t.at_count)

-- What comes of `send_mail_queue`: it returns, or it throws before the server has taken the mail, or
-- after that, as where `QUIT` is not answered with 221.
pub data Delivery : Type 0 where
  completed refused unanswered : Delivery

-- The queue is emptied only where `send_mail_queue` returns. The second part of the result is the
-- batch that the server took.
unfoldable pub after_mail : Delivery → ℕ → Mailer → Mailer × List Event
after_mail completed time m =
    (record m { local_queue = []; max_priority = 0; last_send = time }, m.local_queue)
after_mail refused time m = (record m { last_send = time }, [])
after_mail unanswered time m = (record m { last_send = time }, m.local_queue)

-- The second half of a round.
unfoldable pub flush : Config → Readings → Delivery → Mailer → Mailer × List Event
unfolding after_mail
flush cfg t d m =
    if is_time cfg t m && not (is_empty m.local_queue) then after_mail d t.at_send m else (m, [])

-- What a round meets: an alert or a timeout, the clock, and what would come of a mail.
pub record Round : Type 0 where
  pub input : Option Event
  pub time : Readings
  pub delivery : Delivery

unfoldable pub mail_round : Config → Round → Mailer → Mailer × List Event
unfolding accept flush
mail_round cfg r m = flush cfg r.time r.delivery (accept cfg r.time r.input m)

-- The rounds of the loop, with all that the server took.
unfoldable pub mail_task : Config → List Round → Mailer → Mailer × List Event
unfolding mail_round
mail_task cfg [] m = (m, [])
mail_task cfg (r ∷ rs) m =
    let (m1, out) = mail_round cfg r m in let (m2, outs) = mail_task cfg rs m1 in (m2, out ++ outs)

-- Behind the loop: one more try, after which the thread ends. The first part is what the server
-- takes, the second what is discarded.
unfoldable pub mail_shutdown : Delivery → Mailer → List Event × List Event
mail_shutdown completed m = (m.local_queue, [])
mail_shutdown refused m = ([], m.local_queue)
mail_shutdown unanswered m = (m.local_queue, m.local_queue)
