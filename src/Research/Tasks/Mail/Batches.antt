-- ===== src/Research/Tasks/Mail/Batches.antt =====
-- The way of an alert through `mail_task`, and the highest priority that waits.
use Prim.Native.Nat.{max}
use ctguard.Base.{
  ℕ, ◌≤◌, ◌≡◌, ◌≢◌, ◌↔◌, Elem, All, Any-split, Any-append_left, Any-append_right, not, ◌&&◌,
  if-both, refl, sym, ap, ◌∙◌, true, false, List, [], ◌∷◌, ◌++◌, append-nil, append_assoc, Option,
  none, some, is_empty, if◌then◌else◌, Bool-cases, inl, inr, arith,
}
use ctguard.Research.Types.{Event}
use ctguard.Research.Config.{Config}
use ctguard.Research.Tasks.Mail.{
  Mailer, Readings, Delivery, completed, refused, unanswered, Round, is_mailed, accept, is_time,
  flush, after_mail, mail_round, mail_task,
}

-- The alerts among the inputs that are to be mailed, in order.
abbrev pub mailed : Config → Option Event → List Event
mailed cfg none = []
mailed cfg (some e) = if is_mailed cfg e then e ∷ [] else []

abbrev pub all_mailed : Config → List Round → List Event
all_mailed cfg [] = []
all_mailed cfg (r ∷ rs) = mailed cfg r.input ++ all_mailed cfg rs

accept-queue :
    (cfg : Config) (t : Readings) (o : Option Event) (m : Mailer)
    → (accept cfg t o m).local_queue ≡ m.local_queue ++ mailed cfg o
unfolding accept
accept-queue cfg t none m = sym (append-nil m.local_queue)
accept-queue cfg t (some e) m = elim (Bool-cases (is_mailed cfg e)) [
  | inl y ↦ rw y
  | inr n ↦ rw n (sym (append-nil m.local_queue))
]

flush-queue :
    (cfg : Config) (t : Readings) (d : Delivery) (m : Mailer)
    → d ≢ unanswered
    → (flush cfg t d m).1 ++ (flush cfg t d m).0.local_queue ≡ m.local_queue
unfolding flush after_mail
flush-queue cfg t completed m h = ground (arith, append-nil m.local_queue)
flush-queue cfg t refused m h = ground (arith, append-nil m.local_queue)
flush-queue cfg t unanswered m h = absurd (h refl)

-- Two lists of the same alerts, however often each.
abbrev pub Same : List Event → List Event → Type 0
Same xs ys = (e : Event) → Elem e xs ↔ Elem e ys

Same-doubled : (xs : List Event) → Same (xs ++ xs) xs
Same-doubled xs e = (
  λ m. elim (Any-split (λ x. x ≡ e) xs xs m) [ inl a ↦ a | inr b ↦ b ],
  λ m. Any-append_left (λ x. x ≡ e) xs xs m,
)

Same-eq : {xs ys : List Event} → xs ≡ ys → Same xs ys
Same-eq p e = ((λ m. rw p at m), (λ m. rw (sym p) at m))

Same-trans : (xs ys zs : List Event) → Same xs ys → Same ys zs → Same xs zs
Same-trans xs ys zs f g e = ((λ m. (g e).0 ((f e).0 m)), (λ m. (f e).1 ((g e).1 m)))

Same-append : (ws xs ys zs : List Event) → Same ws ys → Same xs zs → Same (ws ++ xs) (ys ++ zs)
Same-append ws xs ys zs f g e = (
  λ m. elim (Any-split (λ x. x ≡ e) ws xs m) [
    | inl a ↦ Any-append_left (λ x. x ≡ e) ys zs ((f e).0 a)
    | inr b ↦ Any-append_right (λ x. x ≡ e) ys zs ((g e).0 b)
  ],
  λ m. elim (Any-split (λ x. x ≡ e) ys zs m) [
    | inl a ↦ Any-append_left (λ x. x ≡ e) ws xs ((f e).1 a)
    | inr b ↦ Any-append_right (λ x. x ≡ e) ws xs ((g e).1 b)
  ],
)

flush-Same :
    (cfg : Config) (t : Readings) (d : Delivery) (m : Mailer)
    → Same ((flush cfg t d m).1 ++ (flush cfg t d m).0.local_queue) m.local_queue
unfolding flush after_mail
flush-Same cfg t completed m = Same-eq (flush-queue cfg t completed m (λ e. absurd cc))
flush-Same cfg t refused m = Same-eq (flush-queue cfg t refused m (λ e. absurd cc))
flush-Same cfg t unanswered m =
    if-both (λ (r : Mailer × List Event). Same (r.1 ++ r.0.local_queue) m.local_queue)
      (is_time cfg t m && not (is_empty m.local_queue)) _ _ (Same-doubled m.local_queue)
      (Same-eq refl)

-- An alert is in what the server took or still waits exactly if it waited before or came in to be
-- mailed: whatever comes of the mails, none is lost and none is made up.
pub mail_task-Same :
    (cfg : Config) (rs : List Round) (m : Mailer) (e : Event)
    → Elem e ((mail_task cfg rs m).1 ++ (mail_task cfg rs m).0.local_queue)
      ↔ Elem e (m.local_queue ++ all_mailed cfg rs)
unfolding mail_task mail_round
mail_task-Same cfg [] m = Same-eq (sym (append-nil m.local_queue))
mail_task-Same cfg (r ∷ rs) m =
    let m0 = accept cfg r.time r.input m in
    let (m1, out) = flush cfg r.time r.delivery m0 in
    Same-trans _ _ _
      (Same-eq (append_assoc out (mail_task cfg rs m1).1 (mail_task cfg rs m1).0.local_queue))
      (Same-trans _ _ _
        (Same-append out _ out (m1.local_queue ++ all_mailed cfg rs) (Same-eq refl)
          (mail_task-Same cfg rs m1))
        (Same-trans _ _ _ (Same-eq (sym (append_assoc out m1.local_queue (all_mailed cfg rs)))) (
          Same-trans _ _ _
            (Same-append (out ++ m1.local_queue) (all_mailed cfg rs) m0.local_queue
              (all_mailed cfg rs) (flush-Same cfg r.time r.delivery m0) (Same-eq refl))
            (Same-eq (
              ap (λ q. q ++ all_mailed cfg rs) (accept-queue cfg r.time r.input m)
              ∙ append_assoc m.local_queue (mailed cfg r.input) (all_mailed cfg rs))))))

-- If no send_mail_queue throws after the server has taken the mail: what the server took, and then
-- what still waits, is what waited before and then what came to be mailed. So nothing is lost, sent
-- twice or put out of order, whichever other mails fail.
pub mail_task-keeps :
    (cfg : Config) (rs : List Round) (m : Mailer)
    → All (λ r. r.delivery ≢ unanswered) rs
    → (mail_task cfg rs m).1 ++ (mail_task cfg rs m).0.local_queue
      ≡ m.local_queue ++ all_mailed cfg rs
unfolding mail_task mail_round
mail_task-keeps cfg [] m h = sym (append-nil m.local_queue)
mail_task-keeps cfg (r ∷ rs) m h =
    let m0 = accept cfg r.time r.input m in
    let (m1, out) = flush cfg r.time r.delivery m0 in
    append_assoc out (mail_task cfg rs m1).1 (mail_task cfg rs m1).0.local_queue
    ∙ ap (◌++◌ out) (mail_task-keeps cfg rs m1 h.1)
    ∙ sym (append_assoc out m1.local_queue (all_mailed cfg rs))
    ∙ ap (λ q. q ++ all_mailed cfg rs)
        (flush-queue cfg r.time r.delivery m0 h.0 ∙ accept-queue cfg r.time r.input m)
    ∙ append_assoc m.local_queue (mailed cfg r.input) (all_mailed cfg rs)

-- The highest priority in the queue.
abbrev pub highest : List Event → ℕ
highest [] = 0
highest (e ∷ es) = max e.priority (highest es)

highest-concat :
    (es : List Event) (e : Event) → highest (es ++ e ∷ []) ≡ max (highest es) e.priority
highest-concat [] e = omega arith
highest-concat (x ∷ es) e = omega (arith, highest-concat es e)

-- `max_priority` is the highest priority of the alerts that wait.
abbrev pub Tracks : Mailer → Type 0
Tracks m = m.max_priority ≡ highest m.local_queue

accept-Tracks :
    (cfg : Config) (t : Readings) (o : Option Event) (m : Mailer)
    → Tracks m
    → Tracks (accept cfg t o m)
unfolding accept
accept-Tracks cfg t none m h = h
accept-Tracks cfg t (some e) m h = ground (arith, highest-concat m.local_queue e)

flush-Tracks :
    (cfg : Config) (t : Readings) (d : Delivery) (m : Mailer)
    → Tracks m
    → Tracks (flush cfg t d m).0
unfolding flush after_mail
flush-Tracks cfg t completed m h = ground arith
flush-Tracks cfg t refused m h = ground arith
flush-Tracks cfg t unanswered m h = ground arith

-- Every round keeps `max_priority` the highest priority of the alerts that wait.
pub mail_task-Tracks :
    (cfg : Config) (rs : List Round) (m : Mailer) → Tracks m → Tracks (mail_task cfg rs m).0
unfolding mail_task mail_round
mail_task-Tracks cfg [] m h = h
mail_task-Tracks cfg (r ∷ rs) m h =
    mail_task-Tracks cfg rs _
      (flush-Tracks cfg r.time r.delivery _ (accept-Tracks cfg r.time r.input m h))

accept-urgent :
    (cfg : Config) (t : Readings) (e : Event) (m : Mailer)
    → is_mailed cfg e ≡ true
    → ((accept cfg t (some e) m).local_queue ≡ m.local_queue ++ e ∷ [])
      × (e.priority ≤ (accept cfg t (some e) m).max_priority)
unfolding accept
accept-urgent cfg t e m y = ground arith

flush-urgent :
    (cfg : Config) (t : Readings) (m : Mailer)
    → cfg.mail_instant ≤ m.max_priority
    → is_empty m.local_queue ≡ false
    → ((flush cfg t completed m).1 ≡ m.local_queue) × ((flush cfg t completed m).0.local_queue ≡ [])
unfolding flush after_mail is_time
flush-urgent cfg t m urgent some_queue = ground arith

is_empty-concat : (es : List Event) (e : Event) → is_empty (es ++ e ∷ []) ≡ false
unfolding is_empty
is_empty-concat [] e = refl
is_empty-concat (x ∷ es) e = refl

-- An alert of the instant priority is sent in the round in which it comes, behind all that waits,
-- if it is to be mailed and send_mail_queue returns; nothing is left to wait.
pub urgent_sent :
    (cfg : Config) (t : Readings) (e : Event) (m : Mailer)
    → is_mailed cfg e ≡ true
    → cfg.mail_instant ≤ e.priority
    → let round = mail_round cfg (record { input = some e; time = t; delivery = completed }) m in
      (round.1 ≡ m.local_queue ++ e ∷ []) × (round.0.local_queue ≡ [])
unfolding mail_round
urgent_sent cfg t e m y urgent =
    let (q, high) = accept-urgent cfg t e m y in
    let sent =
      flush-urgent cfg t (accept cfg t (some e) m) (omega arith)
        (rw q (is_empty-concat m.local_queue e)) in
    (sent.0 ∙ q, sent.1)
