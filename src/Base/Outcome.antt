-- ===== src/Base/Outcome.antt =====
-- Code that may raise: a value or an exception of type `E`.
use mathlib.Core.Path.{◌≡◌, refl}
use mathlib.Core.Logic.{◌⊎◌, inl, inr}
use mathlib.Core.Option.{Option, none, some}
use mathlib.Core.Bool.{Bool, true, false}

pub data Outcome {ℓ} (E : Type 0) (A : Type ℓ) : Type ℓ where
  ok : A → Outcome E A
  err : E → Outcome E A

infixl 5 ◌>>=◌ ◌>>◌
abbrev pub ◌>>=◌ {ℓ κ} :
    {E : Type 0} {A : Type ℓ} {B : Type κ} → Outcome E A → (A → Outcome E B) → Outcome E B
ok a >>= f = f a
err e >>= f = err e

abbrev pub ◌>>◌ {ℓ} : {E : Type 0} {B : Type ℓ} → Outcome E (Unit {0}) → Outcome E B → Outcome E B
m >> k = m >>= λ _. k

-- `if bad: raise e`
abbrev pub reject : {E : Type 0} → Bool → E → Outcome E (Unit {0})
reject true e = err e
reject false e = ok tt

-- `if value is None: raise e`
abbrev pub or_raise {ℓ} : {E : Type 0} {A : Type ℓ} → E → Option A → Outcome E A
or_raise e none = err e
or_raise e (some a) = ok a

pub or_raise-eq-ok {ℓ} :
    {E : Type 0} {A : Type ℓ} (e : E) (o : Option A) {a : A} → or_raise e o ≡ ok a → o ≡ some a
or_raise-eq-ok e none h = cc
or_raise-eq-ok e (some b) h = cc

-- A bind that succeeds ran its first part to a value, and the rest on that value.
pub >>=-eq-ok {ℓ κ} :
    {E : Type 0} {S : Type ℓ} {T : Type κ} (first : Outcome E S) (then_run : S → Outcome E T)
    {end_value : T}
    → (first >>= then_run) ≡ ok end_value
    → (s : S) × (first ≡ ok s) × (then_run s ≡ ok end_value)
>>=-eq-ok (ok s) then_run ran = (s, refl, ran)
>>=-eq-ok (err raised) then_run ran = cc

-- A block that succeeds succeeded in its first statement and in the rest.
pub >>-eq-ok {ℓ} :
    {E : Type 0} {B : Type ℓ} (m : Outcome E (Unit {0})) (k : Outcome E B) {b : B}
    → (m >> k) ≡ ok b
    → (m ≡ ok tt) × (k ≡ ok b)
>>-eq-ok (ok tt) k h = (refl, h)
>>-eq-ok (err e) k h = cc

pub reject-eq-ok : {E : Type 0} (b : Bool) (e : E) → reject b e ≡ ok tt → b ≡ false
reject-eq-ok true e h = cc
reject-eq-ok false e h = refl

pub ok_inj {ℓ} : {E : Type 0} {A : Type ℓ} {a b : A} → ◌≡◌ {A = Outcome E A} (ok a) (ok b) → a ≡ b
ok_inj h = cc

pub err_inj {ℓ} :
    {E : Type 0} {A : Type ℓ} {a b : E} → ◌≡◌ {A = Outcome E A} (err a) (err b) → a ≡ b
err_inj h = cc

pub Outcome-cases {ℓ} :
    {E : Type 0} {A : Type ℓ} (m : Outcome E A) → ((e : E) × (m ≡ err e)) ⊎ ((a : A) × (m ≡ ok a))
Outcome-cases (ok a) = inr (a, refl)
Outcome-cases (err e) = inl (e, refl)
