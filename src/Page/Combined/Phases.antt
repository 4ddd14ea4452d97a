-- ===== src/Page/Combined/Phases.antt =====
-- Calls of a combined run that take the page from one phase to the next, or throw on the way.
use ucollection.Base.Result.{Result, ok, err}
use ucollection.Page.{Session}
use ucollection.Page.Run.{Run, after, ◌>>=◌, Maintains}

-- A call that returns leads from `P` to `Q`, and one that throws leads to `R`.
abbrev pub Post :
    {A : Type 0} → (Session → Type 0) → (Session → Type 0) → Result A × Session → Type 0
Post Q R (ok a, s) = Q s
Post Q R (err e, s) = R s

pub record Leads {A : Type 0} (P Q R : Session → Type 0) (m : Run A) : Type 0 where
  pub at : (s : Session) → P s → Post Q R (m s)

module _ {A B : Type 0} {Q Q' R : Session → Type 0} where
  after-Post :
      (p : Result A × Session) (f : A → Run B)
      → Post Q R p
      → ((a : A) → Leads Q Q' R (f a))
      → Post Q' R (after p f)
  after-Post (ok a, s) f h k = (k a).at s h
  after-Post (err e, s) f h k = h

  pub Leads-bind :
      {P : Session → Type 0} (m : Run A) (f : A → Run B)
      → Leads P Q R m
      → ((a : A) → Leads Q Q' R (f a))
      → Leads P Q' R (m >>= f)
  unfolding ◌>>=◌
  Leads-bind m f km kf = record { at = λ s h. after-Post (m s) f (km.at s h) kf }

module _ {A : Type 0} {P R : Session → Type 0} where
  kept-Post : (p : Result A × Session) → ((s : Session) → P s → R s) → P p.1 → Post P R p
  kept-Post (ok a, s) weaken h = h
  kept-Post (err e, s) weaken h = weaken s h

  pub Leads-of_Maintains : (m : Run A) → ((s : Session) → P s → R s) → Maintains P m → Leads P P R m
  Leads-of_Maintains m weaken k = record { at = λ s h. kept-Post (m s) weaken (k.at s h) }
