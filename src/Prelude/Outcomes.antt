-- ===== src/Prelude/Outcomes.antt =====
-- A postcondition of a step that may raise, and how the steps of a do block hand it on.
use mathlib.Core.Path.{◌≡◌, refl}
use mathlib.Core.Bool.{Bool, true, false}
use mathlib.Core.Option.{Option, none, some}
use compliance_wizard_engine.Prelude.Tests.{if◌then◌else◌, ◌>>=◌}

-- What holds of the result, if there is one.
pub data Ensures {A : Type 0} (P : A → Type 0) : Option A → Type 0 where
  raised : Ensures P none
  returns : {a : A} → P a → Ensures P (some a)

pub Ensures-some : {A : Type 0} {P : A → Type 0} {a : A} → Ensures P (some a) → P a
Ensures-some (returns h) = h

pub Ensures-bind :
    {A B : Type 0} (P : A → Type 0) (Q : B → Type 0) (m : Option A) (f : A → Option B)
    → Ensures P m
    → ((a : A) → P a → Ensures Q (f a))
    → Ensures Q (m >>= f)
Ensures-bind P Q none f h k = raised
Ensures-bind P Q (some a) f h k = k a (Ensures-some h)

pub Ensures-if :
    {A : Type 0} (P : A → Type 0) (b : Bool) (a : A)
    → (b ≡ true → P a)
    → Ensures P (if b then some a else none)
Ensures-if P true a h = returns (h refl)
Ensures-if P false a h = raised

pub any_result : {A : Type 0} (m : Option A) → Ensures (λ a. Unit) m
any_result none = raised
any_result (some a) = returns tt

pub stops :
    {A B : Type 0} (m : Option A) (f : A → Option B) → ((a : A) → f a ≡ none) → (m >>= f) ≡ none
stops none f h = refl
stops (some a) f h = h a

pub stops_here : {A B : Type 0} {m : Option A} (f : A → Option B) → m ≡ none → (m >>= f) ≡ none
stops_here f h = rw h refl

pub Ensures-weaken :
    {A : Type 0} {P Q : A → Type 0} (f : (a : A) → P a → Q a) {m : Option A}
    → Ensures P m
    → Ensures Q m
Ensures-weaken f raised = raised
Ensures-weaken f (returns {a} h) = returns (f a h)
