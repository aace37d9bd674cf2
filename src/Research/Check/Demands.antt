-- ===== src/Research/Check/Demands.antt =====
-- What the triggers of a rule ask of an event's fields.
use ctguard.Base.{
  ◌≡◌, refl, Bool, true, false, ◌↔◌, [], ◌∷◌, Option, none, some, Bytes, beq, beq_iff, lookup,
  text_key, All, Bool-cases, if◌then◌else◌, ok, ◌>>=◌, arith, inl, inr,
}
use ctguard.Research.Types.{RuleMatch, Triggers, Fields}
use ctguard.Research.Env.{Env, Result}
use ctguard.Research.Check.{
  match_value, Scan, mismatch, seen, scan, scan_verdict, is_empty_match, triggers_match,
}

-- No key stands twice, as in any `std::map`.
abbrev pub Fresh : Bytes → Fields → Type 0
Fresh k [] = Unit {0}
Fresh k ((j, v) ∷ m) = (beq j k ≡ false) × Fresh k m

abbrev pub Distinct : Fields → Type 0
Distinct [] = Unit {0}
Distinct ((k, v) ∷ m) = Fresh k m × Distinct m

-- A trigger is met by the value of its field; one that asks for an empty value, by no field too.
abbrev pub MetBy : Env → RuleMatch → Bytes → Option Bytes → Type 0
MetBy env rm want none = is_empty_match rm ≡ true
MetBy env rm want (some value) = match_value env rm want value ≡ ok true

abbrev pub Met : Env → Fields → Bytes × (RuleMatch × Bytes) → Type 0
Met env fs (name, (rm, want)) = MetBy env rm want (lookup name fs)

-- How the loop for one trigger ends, by the one value that the field has.
abbrev scan_of : Env → RuleMatch → Bytes → Option Bytes → Result Scan
scan_of env rm want none = ok (seen false)
scan_of env rm want (some value) =
    match_value env rm want value >>= λ hit. if hit then ok (seen true) else ok mismatch

module _ (env : Env) where
  scan-Fresh :
      (name : Bytes) (rm : RuleMatch) (want : Bytes) (fs : Fields) (found : Bool)
      → Fresh name fs
      → scan env name rm want fs found ≡ ok (seen found)
  unfolding scan
  scan-Fresh name rm want [] found f = refl
  scan-Fresh name rm want ((k, v) ∷ fs) found f = rw f.0 (scan-Fresh name rm want fs found f.1)

  scan-lookup :
      (name : Bytes) (rm : RuleMatch) (want : Bytes) (fs : Fields)
      → Distinct fs
      → scan env name rm want fs false ≡ scan_of env rm want (lookup name fs)
  unfolding scan lookup
  scan-lookup name rm want [] d = refl
  scan-lookup name rm want ((k, v) ∷ fs) d = elim (Bool-cases (beq k name)) [
    | inr e ↦ rw e (scan-lookup name rm want fs d.1)
    | inl e ↦
        let same : k ≡ name = (beq_iff k name).0 e in
        rw (e, scan-Fresh name rm want fs true (rw same at d.0))
  ]

  verdict_of :
      (rm : RuleMatch) (want : Bytes) (o : Option Bytes) (rest : Result Bool)
      → ((scan_of env rm want o >>= λ s. if scan_verdict rm s then rest else ok false) ≡ ok true)
        ↔ (MetBy env rm want o × (rest ≡ ok true))
  verdict_of rm want none rest = ground arith
  verdict_of rm want (some value) rest = ground arith

  -- The triggers pass exactly when each is met: by the value of its field or, for a trigger that
  -- asks for an empty value, by the field's absence. The fields' keys are distinct.
  pub triggers_match-Met :
      (ts : Triggers) (fs : Fields)
      → Distinct fs
      → (triggers_match env ts fs ≡ ok true) ↔ All (Met env fs) ts
  unfolding triggers_match
  triggers_match-Met [] fs d = (λ e. tt, λ h. refl)
  triggers_match-Met ((name, (rm, want)) ∷ ts) fs d =
      let rest = triggers_match-Met ts fs d in
      let here = verdict_of rm want (lookup name fs) (triggers_match env ts fs) in
      rw (scan-lookup name rm want fs d)
        ((λ e. ((here.0 e).0, rest.0 (here.0 e).1)), (λ h. here.1 (h.0, rest.1 h.1)))
