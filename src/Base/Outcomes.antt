-- ===== src/Base/Outcomes.antt =====
-- Results that may be an error, and what can be said of both.
use mathlib.Core.Path.{◌≡◌, refl}
use mathlib.Core.Bool.{Bool, true, false}
use mathlib.Core.Option.{Option, none, some}
use mathlib.Core.Logic.{◌⊎◌, inl, inr}
use ctguard.Base.Tests.{if◌then◌else◌}

pub data Outcome {ℓ} (E : Type 0) (A : Type ℓ) : Type ℓ where
  ok : A → Outcome E A
  err : E → Outcome E A

infixl 5 ◌>>=◌ ◌>>◌
abbrev pub ◌>>=◌ {ℓ κ} :
    {E : Type 0} {A : Type ℓ} {B : Type κ} → Outcome E A → (A → Outcome E B) → Outcome E B
err e >>= next = err e
ok a >>= next = next a

abbrev pub ◌>>◌ {ℓ} : {E : Type 0} {B : Type ℓ} → Outcome E (Unit {0}) → Outcome E B → Outcome E B
first >> second = first >>= λ u. second

-- `if (!condition) throw e;`
abbrev pub guard : {E : Type 0} → Bool → E → Outcome E (Unit {0})
guard false e = err e
guard true e = ok tt

abbrev pub or_err {ℓ} : {E : Type 0} {A : Type ℓ} → Option A → E → Outcome E A
or_err none e = err e
or_err (some a) e = ok a

module _ {ℓ κ} {E : Type 0} {A : Type ℓ} {B : Type κ} where
  pub >>=-eq-ok :
      (m : Outcome E A) (f : A → Outcome E B) {b : B}
      → (m >>= f) ≡ ok b
      → (a : A) × (m ≡ ok a) × (f a ≡ ok b)
  >>=-eq-ok (err e) f eq = cc
  >>=-eq-ok (ok a) f eq = (a, refl, eq)

-- Whatever error comes out satisfies the predicate.
abbrev pub Fails {ℓ} : {E : Type 0} {A : Type ℓ} → (E → Type 0) → Outcome E A → Type 0
Fails P (ok a) = Unit
Fails P (err e) = P e

-- A result satisfies the one predicate, an error the other.
abbrev pub Post {ℓ} : {E : Type 0} {A : Type ℓ} → (E → Type 0) → (A → Type 0) → Outcome E A → Type 0
Post P Q (ok a) = Q a
Post P Q (err e) = P e

module _ {ℓ κ} {E : Type 0} {A : Type ℓ} {B : Type κ} (P : E → Type 0) where
  pub Fails-bind :
      (m : Outcome E A) (f : A → Outcome E B)
      → Fails P m
      → ((a : A) → m ≡ ok a → Fails P (f a))
      → Fails P (m >>= f)
  Fails-bind (ok a) f h k = k a refl
  Fails-bind (err e) f h k = h

  pub Post-bind :
      (Q : A → Type 0) (R : B → Type 0) (m : Outcome E A) (f : A → Outcome E B)
      → Post P Q m
      → ((a : A) → Q a → Post P R (f a))
      → Post P R (m >>= f)
  Post-bind Q R (ok a) f h k = k a h
  Post-bind Q R (err e) f h k = h

module _ {ℓ} {E : Type 0} {A : Type ℓ} (P : E → Type 0) where
  pub Fails-Post : (m : Outcome E A) → Fails P m → Post P (λ a. Unit {0}) m
  Fails-Post (ok a) h = tt
  Fails-Post (err e) h = h

  pub Post-Fails : (Q : A → Type 0) (m : Outcome E A) → Post P Q m → Fails P m
  Post-Fails Q (ok a) h = tt
  Post-Fails Q (err e) h = h

-- The predicate that every error satisfies: a statement about results alone.
abbrev pub Whatever : {E : Type 0} → E → Type 0
Whatever e = Unit

-- What is known of each result is known of this one.
pub Post-eq-ok {ℓ} :
    {E : Type 0} {A : Type ℓ} (Q : A → Type 0) (m : Outcome E A) {a : A}
    → Post Whatever Q m
    → m ≡ ok a
    → Q a
Post-eq-ok Q m h e = rw e at h

-- What holds of each result.
pub Post-of {ℓ} :
    {E : Type 0} {A : Type ℓ} (Q : A → Type 0) (m : Outcome E A)
    → ((a : A) → m ≡ ok a → Q a)
    → Post Whatever Q m
Post-of Q (ok a) h = h a refl
Post-of Q (err e) h = tt

-- `try { … } catch (const std::exception &) { throw f; }`
abbrev pub relabel {ℓ} : {E F : Type 0} {A : Type ℓ} → F → Outcome E A → Outcome F A
relabel f (ok a) = ok a
relabel f (err e) = err f

module _ {ℓ} {E : Type 0} {A : Type ℓ} where
  -- Nothing is known of the first step.
  pub Post-then {κ} :
      {B : Type κ} (Q : A → Type 0) (m : Outcome E B) (f : B → Outcome E A)
      → ((b : B) → Post Whatever Q (f b))
      → Post Whatever Q (m >>= f)
  Post-then Q (ok b) f h = h b
  Post-then Q (err e) f h = tt

  -- A guard that was passed.
  pub Post-guard :
      (Q : A → Type 0) (t : Bool) (e : E) (m : Outcome E A)
      → (t ≡ true → Post Whatever Q m)
      → Post Whatever Q (guard t e >> m)
  Post-guard Q true e m h = h refl
  Post-guard Q false e m h = tt

module _ {ℓ} {E : Type 0} {A : Type ℓ} (P : E → Type 0) (Q : A → Type 0) where
  -- Both branches of a test, each with what the test said.
  pub Post-if :
      (b : Bool) (m n : Outcome E A)
      → (b ≡ true → Post P Q m)
      → (b ≡ false → Post P Q n)
      → Post P Q (if b then m else n)
  Post-if true m n h k = h refl
  Post-if false m n h k = k refl

  -- A guard whose error is one of those expected.
  pub Post-check :
      (t : Bool) (e : E) (m : Outcome E A)
      → P e
      → (t ≡ true → Post P Q m)
      → Post P Q (guard t e >> m)
  Post-check true e m h k = k refl
  Post-check false e m h k = h

  -- A result that satisfies more.
  pub Post-weaken :
      (R : A → Type 0) (m : Outcome E A)
      → ((a : A) → R a → Post P Q (ok a))
      → Post P R m
      → Post P Q m
  Post-weaken R (ok a) f h = f a h
  Post-weaken R (err e) f h = h

pub Outcome-cases {ℓ} :
    {E : Type 0} {A : Type ℓ} (m : Outcome E A) → ((a : A) × (m ≡ ok a)) ⊎ ((e : E) × (m ≡ err e))
Outcome-cases (ok a) = inl (a, refl)
Outcome-cases (err e) = inr (e, refl)
