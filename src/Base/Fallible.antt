-- ===== src/Base/Fallible.antt =====
-- What a run of the source's code comes to. `abort` is a failed `assert` (the build keeps
-- assertions: it does not define NDEBUG). `stuck` is no behaviour of the program: the fuel of a
-- recursion ran out.
use mathlib.Core.Bool.{Bool, true, false}
use mathlib.Core.Logic.{◌≢◌}
use mathlib.Core.Path.{◌≡◌, refl, subst}
use websocket_engine.Base.Tests.{if◌then◌else◌}

pub data Outcome {ℓ} (A : Type ℓ) : Type ℓ where
  stuck abort : Outcome A
  ok : A → Outcome A

-- `assert(test)`.
abbrev pub assert : Bool → Outcome (Unit {0})
assert test = elim test [ false ↦ abort | true ↦ ok tt ]

infixl 5 ◌>>=◌ ◌>>◌
-- The second run starts with the result of the first, if there is one.
abbrev pub ◌>>=◌ {ℓ κ} : {A : Type ℓ} {B : Type κ} → Outcome A → (A → Outcome B) → Outcome B
stuck >>= next = stuck
abort >>= next = abort
ok result >>= next = next result

abbrev pub ◌>>◌ {κ} : {B : Type κ} → Outcome (Unit {0}) → Outcome B → Outcome B
first >> second = first >>= λ checked. second

-- What holds of the result, if there is one.
abbrev pub Ends {ℓ κ} : {A : Type ℓ} → (A → Type κ) → Outcome A → Type κ
Ends P (ok result) = P result
Ends P _ = Unit

pub Ends-bind {ℓ κ μ ν} :
    {A : Type ℓ} {B : Type κ} (P : A → Type μ) (Q : B → Type ν) (o : Outcome A)
    (next : A → Outcome B)
    → Ends P o
    → ((a : A) → P a → Ends Q (next a))
    → Ends Q (o >>= next)
Ends-bind P Q stuck next h step = tt
Ends-bind P Q abort next h step = tt
Ends-bind P Q (ok a) next h step = step a h

pub Ends-any {ℓ κ ν} :
    {A : Type ℓ} {B : Type κ} (Q : B → Type ν) (o : Outcome A) (next : A → Outcome B)
    → ((a : A) → Ends Q (next a))
    → Ends Q (o >>= next)
Ends-any Q stuck next step = tt
Ends-any Q abort next step = tt
Ends-any Q (ok a) next step = step a

pub Ends-if {ℓ κ} :
    {A : Type ℓ} (P : A → Type κ) (test : Bool) (o o' : Outcome A)
    → Ends P o
    → Ends P o'
    → Ends P (if test then o else o')
Ends-if P true o o' h h' = h
Ends-if P false o o' h h' = h'

pub Ends-assert {ℓ κ} :
    {A : Type ℓ} (P : A → Type κ) (test : Bool) (o : Outcome A)
    → Ends P o
    → Ends P (assert test >> o)
Ends-assert P true o h = h
Ends-assert P false o h = tt

pub Ends-eq {ℓ κ} :
    {A : Type ℓ} (P : A → Type κ) {o : Outcome A} {a : A} → Ends P o → o ≡ ok a → P a
Ends-eq P h e = subst (Ends P) e h

-- A run that does not run out of fuel, and whose result, if there is one, is as `P` says.
abbrev pub Lands {ℓ} : {A : Type ℓ} → (A → Type 0) → Outcome A → Type 0
Lands P stuck = ⊥
Lands P abort = Unit
Lands P (ok result) = P result

pub Lands-bind {ℓ κ} :
    {A : Type ℓ} {B : Type κ} (P : A → Type 0) (Q : B → Type 0) (o : Outcome A)
    (next : A → Outcome B)
    → Lands P o
    → ((a : A) → P a → Lands Q (next a))
    → Lands Q (o >>= next)
Lands-bind P Q stuck next h step = absurd h
Lands-bind P Q abort next h step = tt
Lands-bind P Q (ok a) next h step = step a h

pub Lands-if {ℓ} :
    {A : Type ℓ} (P : A → Type 0) (test : Bool) (o o' : Outcome A)
    → (test ≡ true → Lands P o)
    → (test ≡ false → Lands P o')
    → Lands P (if test then o else o')
Lands-if P true o o' h h' = h refl
Lands-if P false o o' h h' = h' refl

pub Lands-assert {ℓ} :
    {A : Type ℓ} (P : A → Type 0) (test : Bool) (o : Outcome A)
    → (test ≡ true → Lands P o)
    → Lands P (assert test >> o)
Lands-assert P true o h = h refl
Lands-assert P false o h = tt

pub Lands-ends {ℓ} : {A : Type ℓ} (P : A → Type 0) {o : Outcome A} → Lands P o → o ≢ stuck
Lands-ends P h e = subst (Lands P) e h
