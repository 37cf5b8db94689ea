-- ===== src/Base/Outcome.antt =====
-- What a run of C code may end in: a value, undefined behaviour (an access outside an object, a
-- NULL pointer that is followed, a failed assertion), or a model that ran out of its fuel.
use mathlib.Core.Bool.{Bool, true, false}
use mathlib.Core.Path.{◌≡◌, refl}
use ops_sysd.Base.Tests.{if◌then◌else◌}

pub data Outcome {ℓ} (A : Type ℓ) : Type ℓ where
  ok : A → Outcome A
  fault : Outcome A
  no_fuel : Outcome A

infixl 5 ◌>>=◌ ◌>>◌
abbrev pub ◌>>=◌ {ℓ κ} : {A : Type ℓ} {B : Type κ} → Outcome A → (A → Outcome B) → Outcome B
fault >>= rest = fault
no_fuel >>= rest = no_fuel
ok mid >>= rest = rest mid

abbrev pub ◌>>◌ {ℓ} : {B : Type ℓ} → Outcome (Unit {0}) → Outcome B → Outcome B
m >> k = m >>= λ _. k

pub >>=-eq-ok {ℓ κ} :
    {A : Type ℓ} {B : Type κ} (run : Outcome A) (rest : A → Outcome B) {result : B}
    → (run >>= rest) ≡ ok result
    → (mid : A) × (run ≡ ok mid) × (rest mid ≡ ok result)
>>=-eq-ok (ok mid) rest done = (mid, refl, done)
>>=-eq-ok fault rest done = cc
>>=-eq-ok no_fuel rest done = cc

pub ok_inj {ℓ} : {A : Type ℓ} {a b : A} → ok a ≡ ok b → a ≡ b
ok_inj h = cc

pub fault-ne-ok {ℓ} : {A : Type ℓ} {a : A} → ◌≡◌ {A = Outcome A} fault (ok a) → ⊥
fault-ne-ok h = cc

-- A guarded step that goes through had its guard hold.
pub guard-ok {ℓ} :
    {A : Type ℓ} (test : Bool) (run : Outcome A) {a : A}
    → (if test then run else fault) ≡ ok a
    → (test ≡ true) × (run ≡ ok a)
guard-ok true run h = (refl, h)
guard-ok false run h = cc

pub >>=-assoc {ℓ κ υ} :
    {A : Type ℓ} {B : Type κ} {C : Type υ} (run : Outcome A) (f : A → Outcome B) (g : B → Outcome C)
    → (run >>= f) >>= g ≡ run >>= (λ a. f a >>= g)
>>=-assoc (ok a) f g = refl
>>=-assoc fault f g = refl
>>=-assoc no_fuel f g = refl

pub >>=-ext {ℓ κ} :
    {A : Type ℓ} {B : Type κ} (run : Outcome A) (f g : A → Outcome B)
    → ((a : A) → f a ≡ g a)
    → run >>= f ≡ run >>= g
>>=-ext (ok a) f g h = h a
>>=-ext fault f g h = refl
>>=-ext no_fuel f g h = refl

-- What holds of the value of a run, if it gives one.
abbrev pub Ensures {ℓ κ} : {A : Type ℓ} → (A → Type κ) → Outcome A → Type κ
Ensures P (ok a) = P a
Ensures P fault = Unit
Ensures P no_fuel = Unit

-- A run ensures that its value is what it gives.
pub Ensures-self {ℓ} : {A : Type ℓ} (run : Outcome A) → Ensures (λ a. run ≡ ok a) run
Ensures-self (ok a) = refl
Ensures-self fault = tt
Ensures-self no_fuel = tt

pub Ensures-map {ℓ κ υ} :
    {A : Type ℓ} (P : A → Type κ) (Q : A → Type υ) (run : Outcome A)
    → ((a : A) → Q a → P a)
    → Ensures Q run
    → Ensures P run
Ensures-map P Q (ok a) h q = h a q
Ensures-map P Q fault h q = tt
Ensures-map P Q no_fuel h q = tt

module _ {ℓ κ υ} {A : Type ℓ} {B : Type κ} (P : B → Type υ) where
  pub Ensures-bind {ω} :
      (Q : A → Type ω) (run : Outcome A) (rest : A → Outcome B)
      → Ensures Q run
      → ((a : A) → Q a → Ensures P (rest a))
      → Ensures P (run >>= rest)
  Ensures-bind Q (ok a) rest q h = h a q
  Ensures-bind Q fault rest q h = tt
  Ensures-bind Q no_fuel rest q h = tt

  pub Ensures-after :
      (run : Outcome A) (rest : A → Outcome B)
      → ((a : A) → Ensures P (rest a))
      → Ensures P (run >>= rest)
  Ensures-after (ok a) rest h = h a
  Ensures-after fault rest h = tt
  Ensures-after no_fuel rest h = tt

-- The int that most functions of the source return: 0, or -1 on an error.
pub data Rc : Type 0 where
  rc_zero rc_minus_one : Rc
