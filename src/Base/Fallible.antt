-- ===== src/Base/Fallible.antt =====
-- The ways in which a call ends: it returns, or it stops the program.

use mathlib.Core.Bool.{Bool, true, false}
use mathlib.Core.Path.{◌≡◌, refl}
use emu_gb.Base.Tests.{if◌then◌else◌}

-- `fatal` is `FATAL_ERROR` (include/utils/error.h), which calls `exit(1)`; `abort` is a failed
-- `assert`; `undefined` is an access outside of an array, which C gives no meaning.
pub data Error : Type 0 where
  fatal abort undefined : Error

pub data Outcome {ℓ} (A : Type ℓ) : Type ℓ where
  ok : A → Outcome A
  err : Error → Outcome A

infixl 5 ◌>>=◌
abbrev pub ◌>>=◌ {ℓ κ} : {A : Type ℓ} {B : Type κ} → Outcome A → (A → Outcome B) → Outcome B
ok a >>= f = f a
err e >>= f = err e

-- What holds of the result, where the call returns.
abbrev pub Ensures {ℓ} : {A : Type ℓ} → Outcome A → (A → Type 0) → Type 0
Ensures (ok a) P = P a
Ensures (err e) P = Unit

-- The call returns, with a result of which `P` holds.
abbrev pub Returns {ℓ} : {A : Type ℓ} → Outcome A → (A → Type 0) → Type 0
Returns (ok a) P = P a
Returns (err e) P = ⊥

-- The rule of a chain: what holds after the first call is what the second may assume.
pub >>=-Ensures {ℓ κ} :
    {A : Type ℓ} {B : Type κ} (P : A → Type 0) (Q : B → Type 0) (m : Outcome A) (f : A → Outcome B)
    → Ensures m P
    → ((a : A) → P a → Ensures (f a) Q)
    → Ensures (m >>= f) Q
>>=-Ensures P Q (ok a) f h k = k a h
>>=-Ensures P Q (err e) f h k = tt

pub >>=-Returns {ℓ κ} :
    {A : Type ℓ} {B : Type κ} (P : A → Type 0) (Q : B → Type 0) (m : Outcome A) (f : A → Outcome B)
    → Returns m P
    → ((a : A) → P a → Returns (f a) Q)
    → Returns (m >>= f) Q
>>=-Returns P Q (ok a) f h k = k a h
>>=-Returns P Q (err e) f h k = absurd h

-- The same with nothing known of the first call.
pub after_any {ℓ κ} :
    {A : Type ℓ} {B : Type κ} (Q : B → Type 0) (m : Outcome A) (f : A → Outcome B)
    → ((a : A) → Ensures (f a) Q)
    → Ensures (m >>= f) Q
after_any Q (ok a) f k = k a
after_any Q (err e) f k = tt

-- Both at once: what holds of the result, and a proposition for the case that the program stops. With
-- `Unit` in its place this is `Ensures`, and with `⊥` it is `Returns`.
abbrev pub Ends {ℓ} : {A : Type ℓ} → Type 0 → Outcome A → (A → Type 0) → Type 0
Ends Stop (ok a) P = P a
Ends Stop (err e) P = Stop

pub >>=-Ends {ℓ κ} :
    {A : Type ℓ} {B : Type κ} (Stop : Type 0) (P : A → Type 0) (Q : B → Type 0) (m : Outcome A)
    (f : A → Outcome B)
    → Ends Stop m P
    → ((a : A) → P a → Ends Stop (f a) Q)
    → Ends Stop (m >>= f) Q
>>=-Ends Stop P Q (ok a) f h k = k a h
>>=-Ends Stop P Q (err e) f h k = h

pub if-Ends {ℓ} :
    {A : Type ℓ} (Stop : Type 0) (P : A → Type 0) (b : Bool) (x y : Outcome A)
    → Ends Stop x P
    → Ends Stop y P
    → Ends Stop (if b then x else y) P
if-Ends Stop P true x y h k = h
if-Ends Stop P false x y h k = k

-- Two facts of one outcome at once.
pub Ends-and {ℓ} :
    {A : Type ℓ} (Stop : Type 0) (P Q : A → Type 0) (r : Outcome A)
    → Ends Stop r P
    → Ends Stop r Q
    → Ends Stop r (λ a. P a × Q a)
Ends-and Stop P Q (ok a) h k = (h, k)
Ends-and Stop P Q (err e) h k = h

-- A test whose value each branch may use.
pub if-Ends_cases {ℓ} :
    {A : Type ℓ} (Stop : Type 0) (P : A → Type 0) (b : Bool) (x y : Outcome A)
    → (b ≡ true → Ends Stop x P)
    → (b ≡ false → Ends Stop y P)
    → Ends Stop (if b then x else y) P
if-Ends_cases Stop P true x y h k = h refl
if-Ends_cases Stop P false x y h k = k refl

pub Returns_weaken {ℓ} :
    {A : Type ℓ} (P Q : A → Type 0) (r : Outcome A)
    → ((a : A) → P a → Q a)
    → Returns r P
    → Returns r Q
Returns_weaken P Q (ok a) k h = k a h
Returns_weaken P Q (err e) k h = h

pub Ensures_weaken {ℓ} :
    {A : Type ℓ} (P Q : A → Type 0) (r : Outcome A)
    → ((a : A) → P a → Q a)
    → Ensures r P
    → Ensures r Q
Ensures_weaken P Q (ok a) k h = k a h
Ensures_weaken P Q (err e) k h = h
