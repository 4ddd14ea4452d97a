-- ===== src/Orders/Ensures.antt =====
-- A rule for each way in which a chain of statements goes on.
use mathlib.Core.Path.{subst}
use ucollection.Base.{◌≡◌, refl, Bool, true, false, arith}
use ucollection.Orders.{Error, Outcome, ok, err, ◌>>=◌, ◌>>◌, check}

-- What holds of a value that is returned.
pub record Ensures {A : Type 0} (P : A → Type 0) (m : Outcome A) : Type 0 where
  pub at : (a : A) → m ≡ ok a → P a

pub Ensures-ok : {A : Type 0} {P : A → Type 0} (a : A) → P a → Ensures P (ok a)
Ensures-ok {P} a h = record { at = λ b e. subst P (ground (arith, e)) h }

pub Ensures-check :
    {A : Type 0} {P : A → Type 0} (b : Bool) (e : Error) (m : Outcome A)
    → Ensures P m
    → Ensures P (check b e >> m)
unfolding ◌>>◌
Ensures-check true e m h = h
Ensures-check false e m h = record { at = λ a q. cc q }

-- A check that is passed leaves its equation.
pub Ensures-guard :
    {A : Type 0} {P : A → Type 0} (b : Bool) (e : Error) (m : Outcome A)
    → (b ≡ true → Ensures P m)
    → Ensures P (check b e >> m)
unfolding ◌>>◌
Ensures-guard true e m h = h refl
Ensures-guard false e m h = record { at = λ a q. cc q }

pub Ensures-bind :
    {A B : Type 0} {P : B → Type 0} (m : Outcome A) (f : A → Outcome B)
    → ((a : A) → m ≡ ok a → Ensures P (f a))
    → Ensures P (m >>= f)
unfolding ◌>>=◌
Ensures-bind (err e) f h = record { at = λ a q. cc q }
Ensures-bind (ok a) f h = h a refl
