-- ===== src/Base/Outcome.antt =====
-- What a C++ call can come to: a value, a `verify` that fails and aborts the process, or an access
-- outside an array, after which the language says nothing. A counter that goes below zero, a
-- division by zero, a call on a deleted object and a null pointer that is followed are faults too,
-- and so is a lock that the caller would wait for. `out_of_fuel` is no outcome of the code: it says
-- that a bound of the model was too small.
use mathlib.Core.Bool.{Bool, true, false}
use s_rpc.Base.Tests.{if◌then◌else◌}
use mathlib.Core.Path.{◌≡◌, refl}

pub data Fault : Type 0 where
  verify_failed overrun below_zero division_by_zero deleted null_pointer blocked out_of_fuel : Fault

pub data Outcome {ℓ} (A : Type ℓ) : Type ℓ where
  done : A → Outcome A
  fault : Fault → Outcome A

infixl 5 ◌>>=◌ ◌>>◌
abbrev pub ◌>>=◌ {ℓ κ} : {A : Type ℓ} {B : Type κ} → Outcome A → (A → Outcome B) → Outcome B
done a >>= f = f a
fault e >>= f = fault e

abbrev pub ◌>>◌ {ℓ} : {B : Type ℓ} → Outcome (Unit {0}) → Outcome B → Outcome B
m >> k = m >>= λ _. k

pub bind_same {ℓ κ} :
    {A : Type ℓ} {B : Type κ} (m : Outcome A) (f g : A → Outcome B)
    → ((a : A) → f a ≡ g a)
    → (m >>= f) ≡ (m >>= g)
bind_same (done a) f g h = h a
bind_same (fault e) f g h = refl

pub bind_assoc {ℓ κ ι} :
    {A : Type ℓ} {B : Type κ} {C : Type ι} (m : Outcome A) (f : A → Outcome B) (g : B → Outcome C)
    → ((m >>= f) >>= g) ≡ (m >>= λ a. f a >>= g)
bind_assoc (done a) f g = refl
bind_assoc (fault e) f g = refl

-- `verify(b)`
abbrev pub verify : Bool → Outcome (Unit {0})
verify true = done tt
verify false = fault verify_failed

-- A copy into an array that is wide enough only if `b` holds.
abbrev pub in_bounds : Bool → Outcome (Unit {0})
in_bounds true = done tt
in_bounds false = fault overrun

-- The call returns, with a value of which `P` holds.
abbrev pub Succeeds {ℓ} : {A : Type ℓ} → (A → Type 0) → Outcome A → Type 0
Succeeds P (done a) = P a
Succeeds P (fault e) = ⊥

pub Succeeds-done {ℓ} :
    {A : Type ℓ} (P : A → Type 0) (m : Outcome A) → Succeeds P m → (a : A) × (m ≡ done a) × P a
Succeeds-done P (done a) p = (a, refl, p)
Succeeds-done P (fault e) p = elim p [ ]

pub Succeeds-bind {ℓ κ} :
    {A : Type ℓ} {B : Type κ} (P : A → Type 0) (Q : B → Type 0) (m : Outcome A) (f : A → Outcome B)
    → Succeeds P m
    → ((a : A) → P a → Succeeds Q (f a))
    → Succeeds Q (m >>= f)
Succeeds-bind P Q (done a) f p q = q a p
Succeeds-bind P Q (fault e) f p q = elim p [ ]

pub Succeeds-if {ℓ} :
    {A : Type ℓ} (P : A → Type 0) (b : Bool) (x y : Outcome A)
    → (b ≡ true → Succeeds P x)
    → (b ≡ false → Succeeds P y)
    → Succeeds P (if b then x else y)
Succeeds-if P true x y f g = f refl
Succeeds-if P false x y f g = g refl

pub Succeeds-map {ℓ} :
    {A : Type ℓ} (P Q : A → Type 0) (m : Outcome A)
    → Succeeds P m
    → ((a : A) → P a → Q a)
    → Succeeds Q m
Succeeds-map P Q (done a) p f = f a p
Succeeds-map P Q (fault e) p f = elim p [ ]

-- If the call returns, it is with a value of which `P` holds.
abbrev pub After {ℓ} : {A : Type ℓ} → (A → Type 0) → Outcome A → Type 0
After P (done a) = P a
After P (fault e) = Unit {0}

pub After-bind {ℓ κ} :
    {A : Type ℓ} {B : Type κ} (P : A → Type 0) (Q : B → Type 0) (m : Outcome A) (f : A → Outcome B)
    → After P m
    → ((a : A) → P a → After Q (f a))
    → After Q (m >>= f)
After-bind P Q (done a) f p q = q a p
After-bind P Q (fault e) f p q = tt

pub After-then {ℓ κ} :
    {A : Type ℓ} {B : Type κ} (Q : B → Type 0) (m : Outcome A) (f : A → Outcome B)
    → ((a : A) → After Q (f a))
    → After Q (m >>= f)
After-then Q (done a) f q = q a
After-then Q (fault e) f q = tt

pub Succeeds-After {ℓ} :
    {A : Type ℓ} (P Q : A → Type 0) (m : Outcome A)
    → Succeeds P m
    → After Q m
    → Succeeds (λ a. P a × Q a) m
Succeeds-After P Q (done a) p q = (p, q)
Succeeds-After P Q (fault e) p q = elim p [ ]

pub After-self {ℓ} :
    {A : Type ℓ} (P : A → Type 0) (m : Outcome A) → ((a : A) → m ≡ done a → P a) → After P m
After-self P (done a) f = f a refl
After-self P (fault e) f = tt

pub After-if {ℓ} :
    {A : Type ℓ} (P : A → Type 0) (b : Bool) (x y : Outcome A)
    → (b ≡ true → After P x)
    → (b ≡ false → After P y)
    → After P (if b then x else y)
After-if P true x y f g = f refl
After-if P false x y f g = g refl

pub After-map {ℓ} :
    {A : Type ℓ} (P Q : A → Type 0) (m : Outcome A) → After P m → ((a : A) → P a → Q a) → After Q m
After-map P Q (done a) p f = f a p
After-map P Q (fault e) p f = tt

pub After-both {ℓ} :
    {A : Type ℓ} (P Q : A → Type 0) (m : Outcome A)
    → After P m
    → After Q m
    → After (λ a. P a × Q a) m
After-both P Q (done a) p q = (p, q)
After-both P Q (fault e) p q = tt
