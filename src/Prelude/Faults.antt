-- ===== src/Prelude/Faults.antt =====
-- How a run of the C code can end: with a value, or with a fault that stops the process.
use mathlib.Core.Path.{◌≡◌, refl, subst}
use mathlib.Core.Logic.{◌⊎◌, inl, inr}
use mathlib.Core.Bool.{Bool, true, false}
use ysyxworkbench.Prelude.Tests.{if◌then◌else◌}

-- `assertion` is a failed `assert`, `Assert` or `panic`. `undefined` is undefined behaviour of C:
-- an access outside an array, a signed division that has no quotient. `no_fuel` is no fault of the
-- program: the model's loop has used up its fuel.
pub data Fault : Type 0 where
  assertion undefined no_fuel : Fault

pub data Result {ℓ} (A : Type ℓ) : Type ℓ where
  fault : Fault → Result A
  ok : A → Result A

-- What follows runs on the value; a fault ends the run.
infixl 5 ◌>>◌ ◌>>=◌
abbrev pub ◌>>=◌ {ℓ₁ ℓ₂} : {X : Type ℓ₁} {Y : Type ℓ₂} → Result X → (X → Result Y) → Result Y
fault why >>= next = fault why
ok x >>= next = next x

abbrev pub ◌>>◌ {ℓ₂} : {Y : Type ℓ₂} → Result (Unit {0}) → Result Y → Result Y
first >> second = first >>= λ done. second

-- `assert(b)`
abbrev pub assert : Bool → Result (Unit {0})
assert true = ok tt
assert false = fault assertion

-- An access that is defined only under the condition.
abbrev pub defined : Bool → Result (Unit {0})
defined true = ok tt
defined false = fault undefined

-- `P` holds of the value, if there is one.
abbrev pub Post {ℓ} : {A : Type ℓ} → (A → Type 0) → Result A → Type 0
Post P (ok a) = P a
Post P (fault e) = Unit {0}

pub Post-bind {ℓ κ} :
    {A : Type ℓ} {B : Type κ} (P : A → Type 0) (Q : B → Type 0) (m : Result A) (f : A → Result B)
    → Post P m
    → ((a : A) → P a → Post Q (f a))
    → Post Q (m >>= f)
Post-bind P Q (ok a) f h k = k a h
Post-bind P Q (fault e) f h k = tt

-- A run that returns has run both of its parts.
pub >>=-eq-ok {ℓ₁ ℓ₂} :
    {X : Type ℓ₁} {Y : Type ℓ₂} {y : Y} (first : Result X) (next : X → Result Y)
    → (first >>= next) ≡ ok y
    → (x : X) × (first ≡ ok x) × (next x ≡ ok y)
>>=-eq-ok (fault why) next runs = cc
>>=-eq-ok (ok x) next runs = (x, refl, runs)

pub Result-cases {ℓ} :
    {A : Type ℓ} (r : Result A) → ((a : A) × (r ≡ ok a)) ⊎ ((e : Fault) × (r ≡ fault e))
Result-cases (ok a) = inl (a, refl)
Result-cases (fault e) = inr (e, refl)

pub Post-if {ℓ} :
    {A : Type ℓ} (P : A → Type 0) (b : Bool) (x y : Result A)
    → Post P x
    → Post P y
    → Post P (if b then x else y)
Post-if P true x y hx hy = hx
Post-if P false x y hx hy = hy

pub Post-branch {ℓ} :
    {A : Type ℓ} (P : A → Type 0) (b : Bool) (x y : Result A)
    → (b ≡ true → Post P x)
    → (b ≡ false → Post P y)
    → Post P (if b then x else y)
Post-branch P true x y hx hy = hx refl
Post-branch P false x y hx hy = hy refl

pub Post-eq_ok {ℓ} :
    {A : Type ℓ} (P : A → Type 0) (m : Result A) {a : A} → Post P m → m ≡ ok a → P a
Post-eq_ok P m h e = subst (Post P) e h

pub Post-intro {ℓ} :
    {A : Type ℓ} (P : A → Type 0) (m : Result A) → ((a : A) → m ≡ ok a → P a) → Post P m
Post-intro P (ok a) h = h a refl
Post-intro P (fault k) h = tt

pub Post-true {ℓ} : {A : Type ℓ} (m : Result A) → Post (λ _. Unit {0}) m
Post-true (ok a) = tt
Post-true (fault k) = tt

-- The model's loops have had enough fuel.
abbrev pub Ends {ℓ} : {A : Type ℓ} → Result A → Type 0
Ends (ok a) = Unit {0}
Ends (fault assertion) = Unit {0}
Ends (fault undefined) = Unit {0}
Ends (fault no_fuel) = ⊥

pub Ends-bind {ℓ κ} :
    {A : Type ℓ} {B : Type κ} (m : Result A) (f : A → Result B)
    → Ends m
    → ((a : A) → Ends (f a))
    → Ends (m >>= f)
Ends-bind (ok a) f h k = k a
Ends-bind (fault e) f h k = h

pub Ends-guard :
    {A : Type 0} (b : Bool) (m : Result A) → Ends m → Ends (assert b >> m) × Ends (defined b >> m)
Ends-guard true m h = (h, h)
Ends-guard false m h = (tt, tt)

pub Post-weaken {ℓ} :
    {A : Type ℓ} (P Q : A → Type 0) (m : Result A) → Post P m → ((a : A) → P a → Q a) → Post Q m
Post-weaken P Q (ok a) h k = k a h
Post-weaken P Q (fault e) h k = tt

pub Ends-intro {ℓ} : {A : Type ℓ} (r : Result A) → (r ≡ fault no_fuel → ⊥) → Ends r
Ends-intro (ok a) h = tt
Ends-intro (fault assertion) h = tt
Ends-intro (fault undefined) h = tt
Ends-intro (fault no_fuel) h = h refl
