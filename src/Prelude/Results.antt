-- ===== src/Prelude/Results.antt =====
-- What a Go function comes back with: a value, an error value, or a run-time panic. `stuck` is no
-- Go outcome: a loop of the model used up its fuel.
use mathlib.Core.Option.{Option, none, some}
use mathlib.Core.Path.{◌≡◌, refl}
use mathlib.Core.Logic.{◌≢◌}

pub data Result {ℓ} (E : Type 0) (A : Type ℓ) : Type ℓ where
  ok : A → Result E A
  err : E → Result E A
  panic : Result E A
  stuck : Result E A

infixl 5 ◌>>=◌
abbrev pub ◌>>=◌ {ℓ κ} :
    {E : Type 0} {A : Type ℓ} {B : Type κ} → Result E A → (A → Result E B) → Result E B
ok a >>= f = f a
err e >>= f = err e
panic >>= f = panic
stuck >>= f = stuck

-- `if n <= 0 { return err }` after a read.
abbrev pub or_err {ℓ} : {E : Type 0} {A : Type ℓ} → Option A → E → Result E A
or_err none e = err e
or_err (some a) e = ok a

-- What holds of the value that comes back, where one does; the fuel is enough.
abbrev pub Outcome {ℓ} : {E : Type 0} {A : Type ℓ} → (A → Type 0) → Result E A → Type 0
Outcome P (ok a) = P a
Outcome P (err e) = Unit
Outcome P panic = Unit
Outcome P stuck = ⊥

pub Outcome-bind {ℓ κ} :
    {E : Type 0} {A : Type ℓ} {B : Type κ} (P : A → Type 0) (Q : B → Type 0)
    → (r : Result E A) (f : A → Result E B) → Outcome P r
    → ((a : A) → P a → Outcome Q (f a))
    → Outcome Q (r >>= f)
Outcome-bind P Q (ok a) f h k = k a h
Outcome-bind P Q (err e) f h k = tt
Outcome-bind P Q panic f h k = tt
Outcome-bind P Q stuck f h k = absurd h

-- A value that comes back is the one that does.
pub Outcome-same {ℓ} :
    {E : Type 0} {A : Type ℓ} (P : A → Type 0) (r : Result E A)
    → Outcome P r
    → (Q : A → Type 0) → ((a : A) → P a → r ≡ ok a → Q a)
    → Outcome Q r
Outcome-same P (ok a) h Q k = k a h refl
Outcome-same P (err e) h Q k = tt
Outcome-same P panic h Q k = tt
Outcome-same P stuck h Q k = absurd h

pub Outcome-any {ℓ} : {E : Type 0} {A : Type ℓ} (r : Result E A) → r ≢ stuck → Outcome (λ _. Unit) r
Outcome-any (ok a) h = tt
Outcome-any (err e) h = tt
Outcome-any panic h = tt
Outcome-any stuck h = h refl

-- A value with its equation, for the rest.
pub Outcome-then {ℓ κ} :
    {E : Type 0} {A : Type ℓ} {B : Type κ} (Q : B → Type 0) (r : Result E A) (f : A → Result E B)
    → r ≢ stuck
    → ((a : A) → r ≡ ok a → Outcome Q (f a))
    → Outcome Q (r >>= f)
Outcome-then Q (ok a) f h k = k a refl
Outcome-then Q (err e) f h k = tt
Outcome-then Q panic f h k = tt
Outcome-then Q stuck f h k = absurd (h refl)

-- A bind ends where its parts do.
pub >>=-Ends {ℓ κ} :
    {E : Type 0} {A : Type ℓ} {B : Type κ} (r : Result E A) (f : A → Result E B)
    → r ≢ stuck
    → ((a : A) → f a ≢ stuck)
    → (r >>= f) ≢ stuck
>>=-Ends (ok a) f h k = k a
>>=-Ends (err e) f h k = λ x. cc
>>=-Ends panic f h k = λ x. cc
>>=-Ends stuck f h k = absurd (h refl)

pub >>=-eq-ok {ℓ κ} :
    {E : Type 0} {A : Type ℓ} {B : Type κ} (r : Result E A) (f : A → Result E B) {b : B}
    → (r >>= f) ≡ ok b
    → (a : A) × (r ≡ ok a) × (f a ≡ ok b)
>>=-eq-ok (ok a) f h = (a, refl, h)
>>=-eq-ok (err e) f h = cc
>>=-eq-ok panic f h = cc
>>=-eq-ok stuck f h = cc
