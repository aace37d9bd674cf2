-- ===== src/Research/Check/Window.antt =====
-- The saved events of an activation group: their order, and the window of time.
use ctguard.Base.{
  ℕ, ◌+◌, ◌%◌, ◌≤◌, ◌<◌, ◌≡◌, refl, sym, ap, ◌∙◌, Bool, true, false, [], ◌∷◌, ◌++◌, some, ltb, leb,
  if◌then◌else◌, Bytes, is_empty, lookup, length, contains, nat_key, text_key, Bool-cases, inl, inr,
  arith,
}
use ctguard.Research.Types.{Event, RuleInfo, RuleState, Saved}
use ctguard.Research.Env.{Env, World, now, tick}
use ctguard.Research.Check.{
  save, drop_old, has_value, count_same, judge_saved, check_saved, check_activation,
}

-- In time order, from `lo` on.
abbrev pub From : ℕ → Saved → Type 0
From lo [] = Unit {0}
From lo ((t, e) ∷ m) = (lo ≤ t) × From t m

abbrev pub IsOrdered : Saved → Type 0
IsOrdered = From 0

pub From-le : (lo hi : ℕ) (m : Saved) → lo ≤ hi → From hi m → From lo m
From-le lo hi [] h f = tt
From-le lo hi ((t, e) ∷ m) h f = (omega arith, f.1)

save-From : (lo t : ℕ) (e : Event) (m : Saved) → lo ≤ t → From lo m → From lo (save t e m)
unfolding save
save-From lo t e [] h f = (h, tt)
save-From lo t e ((u, x) ∷ m) h f = elim (Bool-cases (ltb t u)) [
  | inl b ↦ rw b (h, (ground arith, f.1))
  | inr b ↦ rw b (f.0, save-From u t e m (ground arith) f.1)
]

-- An insertion keeps the saved events in time order.
pub save-IsOrdered : (t : ℕ) (e : Event) (m : Saved) → IsOrdered m → IsOrdered (save t e m)
save-IsOrdered t e m f = save-From 0 t e m (omega arith) f

drop_old-From : (lo time current : ℕ) (m : Saved) → From lo m → From lo (drop_old time current m)
unfolding drop_old
drop_old-From lo time current [] f = tt
drop_old-From lo time current ((t, e) ∷ m) f = elim (Bool-cases (ltb (t + time) current)) [
  | inl b ↦ rw b (drop_old-From lo time current m (From-le lo t m f.0 f.1))
  | inr b ↦ rw b f
]

pub drop_old-IsOrdered :
    (time current : ℕ) (m : Saved) → IsOrdered m → IsOrdered (drop_old time current m)
drop_old-IsOrdered = drop_old-From 0

-- The saved events that are no older than `time`, wherever they stand.
abbrev pub young : ℕ → ℕ → Saved → Saved
young time current [] = []
young time current ((t, e) ∷ m) =
    if ltb (t + time) current then young time current m else (t, e) ∷ young time current m

young_all :
    (lo time current : ℕ) (m : Saved) → From lo m → current ≤ lo + time → young time current m ≡ m
young_all lo time current [] f h = refl
young_all lo time current ((t, e) ∷ m) f h = ground (arith, young_all t time current m f.1)

-- The loop that stops at the first young event removes exactly the old ones, since the events are
-- in time order.
pub drop_old-young :
    (time current lo : ℕ) (m : Saved) → From lo m → drop_old time current m ≡ young time current m
unfolding drop_old
drop_old-young time current lo [] f = refl
drop_old-young time current lo ((t, e) ∷ m) f = elim (Bool-cases (ltb (t + time) current)) [
  | inl b ↦ rw b (drop_old-young time current t m f.1)
  | inr b ↦ rw b (ap (◌∷◌ (t, e)) (sym (young_all t time current m f.1 (ground arith))))
]

-- How many saved events have the value.
abbrev pub same_events : Bytes → Bytes → Saved → Saved
same_events key value [] = []
same_events key value ((t, e) ∷ m) =
    if has_value key value e then (t, e) ∷ same_events key value m else same_events key value m

-- The loop counts the saved events with the same field, modulo 2^16.
pub count_same-length :
    (key value : Bytes) (m : Saved) (rate : ℕ) (logs : Bytes)
    → rate < 65536
    → (count_same key value m rate logs).0 ≡ (rate + length (same_events key value m)) % 65536
unfolding count_same
count_same-length key value [] rate logs h = omega arith
count_same-length key value ((t, e) ∷ m) rate logs h = ground (
  arith,
  count_same-length key value m ((rate + 1) % 65536) (logs ++ (e.logstr ++ (b'\n' ∷ [])))
      (omega arith),
  count_same-length key value m rate logs h,
)

-- The saved events, with the new one if it belongs to the rule's group, and the clock's reading
-- when the old ones are dropped.
abbrev pub with_event : Env → Event → RuleState → World → Bool → Saved
with_event env ev s w true = save (now env w) ev s.mevents
with_event env ev s w false = s.mevents

abbrev pub later : Env → World → Bool → ℕ
later env w true = now env (tick w)
later env w false = now env w

judge_saved-active :
    (rl : RuleInfo) (ev : Event) (found : Bool) (m : Saved)
    → is_empty rl.same_field ≡ true
    → (judge_saved rl ev found m).active ≡ leb rl.activation_group.rate (length m)
unfolding judge_saved
judge_saved-active rl ev found m plain = ground arith

check_saved-active :
    (env : Env) (rl : RuleInfo) (ev : Event) (found : Bool) (s : RuleState) (w : World)
    → is_empty rl.same_field ≡ true
    → IsOrdered s.mevents
    → (check_saved env rl ev found s w).0.active
      ≡ leb rl.activation_group.rate (
          length (young rl.activation_group.time (later env w found) (with_event env ev s w found)))
unfolding check_saved
check_saved-active env rl ev true s w plain f =
    judge_saved-active rl ev true _ plain
    ∙ ap (λ m. leb rl.activation_group.rate (length m))
        (drop_old-young _ _ 0 _ (save-IsOrdered (now env w) ev s.mevents f))
check_saved-active env rl ev false s w plain f =
    judge_saved-active rl ev false _ plain
    ∙ ap (λ m. leb rl.activation_group.rate (length m)) (drop_old-young _ _ 0 _ f)

-- A rule with an activation group and no `same_field`, whose state is known, is active exactly when
-- at least `rate` of the saved events, the new one among them if it has the rule's group, are no
-- older than the group's time.
pub activation_window :
    (env : Env) (rl : RuleInfo) (ev : Event) (w : World) (s : RuleState)
    → is_empty rl.activation_group.group_name ≡ false
    → is_empty rl.same_field ≡ true
    → lookup rl.id w.states ≡ some s
    → IsOrdered s.mevents
    → let found = contains rl.activation_group.group_name ev.groups in
      (check_activation env rl ev w).0.active
      ≡ leb rl.activation_group.rate (
          length (young rl.activation_group.time (later env w found) (with_event env ev s w found)))
unfolding check_activation
activation_window env rl ev w s named plain known f =
    rw (named, known, check_activation)
      (check_saved-active env rl ev (contains rl.activation_group.group_name ev.groups) s w plain f)
