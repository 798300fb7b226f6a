-- ===== src/Base/Panic.antt =====
-- What a kernel function does: it returns, or it calls panic() with a message.
use mathlib.Core.Path.{◌≡◌, refl}
use mathlib.Core.Logic.{◌≢◌}
use Prim.Native.String.{String}

pub data Outcome {ℓ} (Ret : Type ℓ) : Type ℓ where
  panic : String → Outcome Ret
  ok : Ret → Outcome Ret

infixl 5 ◌>>=◌
abbrev pub ◌>>=◌ {ℓ ℓ'} :
    {Ret : Type ℓ} {Ret' : Type ℓ'} (first : Outcome Ret) (next : Ret → Outcome Ret') → Outcome Ret'
panic message >>= next = panic message
ok value >>= next = next value

-- What holds of the result, where there is one.
abbrev pub Post {ℓ κ} : {A : Type ℓ} → (A → Type κ) → Outcome A → Type κ
Post P (panic m) = Unit
Post P (ok a) = P a

-- It returns, and this holds of the result.
abbrev pub Returns {ℓ} : {A : Type ℓ} → (A → Type 0) → Outcome A → Type 0
Returns P (panic m) = ⊥
Returns P (ok a) = P a

pub Post-bind {ℓ κ ν} :
    {A : Type ℓ} {B : Type κ} (P : B → Type ν) (m : Outcome A) (f : A → Outcome B)
    → ((a : A) → m ≡ ok a → Post P (f a))
    → Post P (m >>= f)
Post-bind P (panic m) f next = tt
Post-bind P (ok a) f next = next a refl

-- A call that returned made its first part return.
pub >>=-ok {ℓ ℓ'} :
    {Ret : Type ℓ} {Ret' : Type ℓ'} (first : Outcome Ret) (next : Ret → Outcome Ret') {last : Ret'}
    → (first >>= next) ≡ ok last
    → (value : Ret) × (first ≡ ok value) × (next value ≡ ok last)
>>=-ok (panic message) next returned = cc
>>=-ok (ok value) next returned = (value, refl, returned)

-- A call that returns has a result, of which it holds.
pub Returns-cases {ℓ} :
    {A : Type ℓ} {P : A → Type 0} (m : Outcome A) → Returns P m → (a : A) × (m ≡ ok a) × P a
Returns-cases (panic message) p = absurd p
Returns-cases (ok value) p = (value, refl, p)

-- The fuel is enough.
abbrev pub Ends {ℓ} : {A : Type ℓ} → Outcome A → Type ℓ
Ends m = m ≢ panic "no fuel"

pub Ends-bind {ℓ κ} :
    {A : Type ℓ} {B : Type κ} (m : Outcome A) (f : A → Outcome B)
    → Ends m
    → ((a : A) → Ends (f a))
    → Ends (m >>= f)
Ends-bind (panic message) f h next e = h cc
Ends-bind (ok a) f h next e = next a e
