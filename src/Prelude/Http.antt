-- ===== src/Prelude/Http.antt =====
-- The outcome of a service method: a value, or the exception of @nestjs/common that it throws. The
-- messages are not modelled. `failure` is any other `Error`.
use mathlib.Core.Bool.{Bool, true, false}
use mathlib.Core.Option.{Option, none, some}
use mathlib.Core.Path.{◌≡◌, refl, subst}

pub data Exception : Type 0 where
  not_found bad_request conflict forbidden unauthorized failure : Exception

pub data Result {ℓ} (A : Type ℓ) : Type ℓ where
  ok : A → Result A
  err : Exception → Result A

infixl 5 ◌>>=◌ ◌>>◌
unfoldable pub ◌>>=◌ {ℓ κ} : {A : Type ℓ} {B : Type κ} → Result A → (A → Result B) → Result B
ok a >>= f = f a
err e >>= f = err e

unfoldable pub ◌>>◌ {ℓ} : {B : Type ℓ} → Result (Unit {0}) → Result B → Result B
ok u >> k = k
err e >> k = err e

-- `if (!test) throw e`.
unfoldable pub require : Bool → Exception → Result (Unit {0})
require true e = ok tt
require false e = err e

-- `if (!row) throw e`.
unfoldable pub or_throw {ℓ} : {A : Type ℓ} → Option A → Exception → Result A
or_throw none e = err e
or_throw (some a) e = ok a

-- What the line of a proof that runs a method names.
unfoldable pub methods : Unit {0}
unfolding ◌>>=◌ ◌>>◌ require or_throw
methods = tt

-- A call that throws leaves the state as it was: it throws before it writes, or in a transaction.
unfoldable pub after {ℓ} : {A : Type ℓ} → A → Result A → A
after s (ok t) = t
after s (err e) = s

-- A postcondition of the value that a method returns, if it returns.
pub data OnOk {ℓ κ} {A : Type ℓ} (P : A → Type κ) : Result A → Type (ℓ ⊔ κ) where
  returns : {a : A} → P a → OnOk P (ok a)
  throws : {e : Exception} → OnOk P (err e)

module _ {ℓ κ μ} {A : Type ℓ} {B : Type κ} {P : B → Type μ} where
  pub OnOk-bind {ν} :
      {Q : A → Type ν} (m : Result A) (k : A → Result B)
      → OnOk Q m
      → ((a : A) → Q a → OnOk P (k a))
      → OnOk P (m >>= k)
  unfolding ◌>>=◌
  OnOk-bind (ok a) k (returns q) h = h a q
  OnOk-bind (err e) k q h = throws

  pub OnOk-or_throw :
      (o : Option A) (e : Exception) (k : A → Result B)
      → ((a : A) → o ≡ some a → OnOk P (k a))
      → OnOk P (or_throw o e >>= k)
  unfolding or_throw ◌>>=◌
  OnOk-or_throw none e k h = throws
  OnOk-or_throw (some a) e k h = h a refl

module _ {ℓ κ} {B : Type ℓ} {P : B → Type κ} where
  pub OnOk-require :
      (b : Bool) (e : Exception) (k : Result B) → (b ≡ true → OnOk P k) → OnOk P (require b e >> k)
  unfolding require ◌>>◌
  OnOk-require true e k h = h refl
  OnOk-require false e k h = throws

  pub OnOk-ok : {r : Result B} {b : B} → OnOk P r → r ≡ ok b → P b
  OnOk-ok (returns {a} p) e = subst P (cc) p
  OnOk-ok throws e = cc

  pub OnOk-mono {μ} : {Q : B → Type μ} {r : Result B} → ((b : B) → P b → Q b) → OnOk P r → OnOk Q r
  OnOk-mono f (returns p) = returns (f _ p)
  OnOk-mono f throws = throws

  pub OnOk-after : (s : B) {r : Result B} → P s → OnOk P r → P (after s r)
  unfolding after
  OnOk-after s p (returns q) = q
  OnOk-after s p throws = p
