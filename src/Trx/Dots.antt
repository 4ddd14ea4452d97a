-- ===== src/Trx/Dots.antt =====
-- What a text after a second dot means for `trxToSun`: `split('.')` takes the first two parts.
use ucollection.Base.{◌≡◌, refl, Text, [], ◌∷◌, ◌++◌, false, All, ◌==◌, nat_eq, trim}
use ucollection.Trx.{dot, until_dot, after_dot, is_rejected, trx_to_sun}

abbrev pub HasNoDot : Text → Type 0
HasNoDot = All (λ c. (c == dot) ≡ false)

pub until_dot-append : (a x : Text) → HasNoDot a → until_dot (a ++ dot ∷ x) ≡ a
unfolding until_dot
until_dot-append [] x h = refl
until_dot-append (c ∷ a) x (e, h) = rw (e, until_dot-append a x h)

pub after_dot-append : (a x : Text) → HasNoDot a → after_dot (a ++ dot ∷ x) ≡ x
unfolding after_dot
after_dot-append [] x h = refl
after_dot-append (c ∷ a) x (e, h) = rw e (after_dot-append a x h)

pub until_dot-eq_self : (b : Text) → HasNoDot b → until_dot b ≡ b
unfolding until_dot
until_dot-eq_self [] h = refl
until_dot-eq_self (c ∷ b) (e, h) = rw (e, until_dot-eq_self b h)

pub after_dot-nil : (s : Text) → HasNoDot s → after_dot s ≡ []
unfolding after_dot
after_dot-nil [] _ = refl
after_dot-nil (c ∷ s) (e, hs) = rw e (after_dot-nil s hs)

is_rejected-append : (a x y : Text) → is_rejected (a ++ dot ∷ x) ≡ is_rejected (a ++ dot ∷ y)
is_rejected-append [] x y = refl
is_rejected-append (c ∷ a) x y = refl

-- If a text has two dots after trimming, the result is the same as for a text that is, after
-- trimming, the part in front of the second dot: what follows that dot is not read.
pub trx_to_sun_second_dot :
    (s s' a b rest : Text)
    → trim s ≡ a ++ dot ∷ (b ++ dot ∷ rest)
    → trim s' ≡ a ++ dot ∷ b
    → HasNoDot a
    → HasNoDot b
    → trx_to_sun s ≡ trx_to_sun s'
unfolding trx_to_sun
trx_to_sun_second_dot s s' a b rest e e' ha hb = rw (
  e,
  e',
  is_rejected-append a (b ++ dot ∷ rest) b,
  until_dot-append a (b ++ dot ∷ rest) ha,
  until_dot-append a b ha,
  after_dot-append a (b ++ dot ∷ rest) ha,
  after_dot-append a b ha,
  until_dot-append b rest hb,
  until_dot-eq_self b hb,
)
