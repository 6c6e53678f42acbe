-- ===== src/Base/Results.antt =====
-- Go's `(value, error)` returns as values: an operation either yields its value or an error.
use mathlib.Core.Path.{◌≡◌, refl}
use mathlib.Core.Bool.{Bool, true, false}
use native.Mathlib.Omega.{arith}

pub data Result {ℓ κ} (Problem : Type ℓ) (Value : Type κ) : Type (ℓ ⊔ κ) where
  ok : Value → Result Problem Value
  err : Problem → Result Problem Value

-- `if test { return e }`.
abbrev pub reject {ℓ} : {Problem : Type ℓ} → Bool → Problem → Result Problem (Unit {0})
reject true problem = err problem
reject false problem = ok tt

-- `if err != nil { return err }` after each call.
infixl 5 ◌>>=◌
abbrev pub ◌>>=◌ {ℓ κ μ} :
    {Problem : Type ℓ} {Value : Type κ} {Next : Type μ}
    → Result Problem Value
    → (Value → Result Problem Next)
    → Result Problem Next
ok value >>= rest = rest value
err problem >>= rest = err problem

-- A call that returns an error only.
infixl 5 ◌>>◌
abbrev pub ◌>>◌ {ℓ μ} :
    {Problem : Type ℓ} {Next : Type μ}
    → Result Problem (Unit {0})
    → Result Problem Next
    → Result Problem Next
call >> rest = call >>= λ done. rest

-- A value that a chain of calls returned comes from its first call's value.
pub >>=-eq-ok {ℓ κ μ} :
    {Problem : Type ℓ} {Value : Type κ} {Next : Type μ} (call : Result Problem Value)
    (rest : Value → Result Problem Next) {last : Next}
    → (call >>= rest) ≡ ok last
    → (value : Value) × (call ≡ ok value) × (rest value ≡ ok last)
>>=-eq-ok (ok value) rest returned = (value, refl, returned)
>>=-eq-ok (err problem) rest returned = cc

-- A guard that let the rest run, and a value that the last call returned.
pub reject-eq-ok {ℓ μ} :
    {E : Type ℓ} {B : Type μ} (test : Bool) (e : E) (k : Result E B) {b : B}
    → (reject test e >> k) ≡ ok b
    → (test ≡ false) × (k ≡ ok b)
reject-eq-ok true e k h = cc
reject-eq-ok false e k h = (refl, h)

pub last-eq-ok {ℓ κ μ} :
    {E : Type ℓ} {A : Type κ} {S : Type μ} (m : Result E S) (a : A) {b : A} {t : S}
    → ◌>>=◌ {Next = A × S} m (λ u. ok (a, u)) ≡ ok (b, t)
    → (m ≡ ok t) × (a ≡ b)
last-eq-ok (ok u) a h = (ground arith, ground arith)
last-eq-ok (err e) a h = cc
