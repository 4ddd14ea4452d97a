-- ===== src/Base/Lists.antt =====
-- Lists measured by native numbers, predicates on all items, and the searches of the sources.
use Prim.Native.Nat.{ℕ, zero, suc, ◌+◌}
use mathlib.Core.Path.{◌≡◌, refl, ap}
use mathlib.Core.Logic.{inl, inr}
use mathlib.Core.Bool.{Bool, true, false, ◌&&◌}
use mathlib.Core.List.{List, [], ◌∷◌, ◌++◌}
use native.Mathlib.Omega.{arith}
use ucollection.Base.Tests.{if◌then◌else◌, Bool-cases}

module _ {ℓ} {A : Type ℓ} where
  abbrev pub length : List A → ℕ
  length [] = 0
  length (x ∷ xs) = suc (length xs)

  abbrev pub take : ℕ → List A → List A
  take zero xs = []
  take (suc n) [] = []
  take (suc n) (x ∷ xs) = x ∷ take n xs

  abbrev pub drop : ℕ → List A → List A
  drop zero xs = xs
  drop (suc n) [] = []
  drop (suc n) (x ∷ xs) = drop n xs

  abbrev pub replicate : ℕ → A → List A
  replicate zero a = []
  replicate (suc n) a = a ∷ replicate n a

  abbrev pub is_empty : List A → Bool
  is_empty [] = true
  is_empty (x ∷ xs) = false

  pub length-append : (xs ys : List A) → length (xs ++ ys) ≡ length xs + length ys
  length-append [] ys = omega arith
  length-append (x ∷ xs) ys = omega (arith, length-append xs ys)

  pub take-append : (xs ys : List A) → take (length xs) (xs ++ ys) ≡ xs
  take-append [] ys = refl
  take-append (x ∷ xs) ys = ap (λ l. x ∷ l) (take-append xs ys)

  pub drop-append : (xs ys : List A) → drop (length xs) (xs ++ ys) ≡ ys
  drop-append [] ys = refl
  drop-append (x ∷ xs) ys = drop-append xs ys

  pub length-replicate : (n : ℕ) (a : A) → length (replicate n a) ≡ n
  length-replicate zero a = refl
  length-replicate (suc n) a = ap suc (length-replicate n a)

module _ {ℓ} {A : Type ℓ} (p : A → Bool) where
  unfoldable pub drop_while : List A → List A
  drop_while [] = []
  drop_while (x ∷ xs) = if p x then drop_while xs else x ∷ xs

  unfoldable pub drop_end_while : List A → List A
  drop_end_while [] = []
  drop_end_while (x ∷ xs) =
      let rest = drop_end_while xs in if is_empty rest && p x then [] else x ∷ rest

  abbrev pub all : List A → Bool
  all [] = true
  all (x ∷ xs) = p x && all xs

module _ {ℓ κ} {A : Type ℓ} (P : A → Type κ) where
  abbrev pub All : List A → Type κ
  All [] = Unit
  All (x ∷ xs) = P x × All xs

  pub All-append : (xs ys : List A) → All xs → All ys → All (xs ++ ys)
  All-append [] ys _ hy = hy
  All-append (x ∷ xs) ys (px, hx) hy = (px, All-append xs ys hx hy)

pub All-map {ℓ κ μ} :
    {A : Type ℓ} (P : A → Type κ) (Q : A → Type μ)
    → ((a : A) → P a → Q a)
    → (xs : List A) → All P xs
    → All Q xs
All-map P Q f [] _ = tt
All-map P Q f (x ∷ xs) (px, h) = (f x px, All-map P Q f xs h)

module _ {ℓ} {A : Type ℓ} (p : A → Bool) where
  pub drop_while-eq_self : (xs : List A) → All (λ x. p x ≡ false) xs → drop_while p xs ≡ xs
  unfolding drop_while
  drop_while-eq_self [] _ = refl
  drop_while-eq_self (x ∷ xs) (h, _) = ground arith

  pub drop_end_while-eq_self : (xs : List A) → All (λ x. p x ≡ false) xs → drop_end_while p xs ≡ xs
  unfolding drop_end_while
  drop_end_while-eq_self [] _ = refl
  drop_end_while-eq_self (x ∷ xs) (h, hs) = ground (arith, drop_end_while-eq_self xs hs)

  pub all-append : (xs ys : List A) → all p (xs ++ ys) ≡ (all p xs && all p ys)
  all-append [] ys = refl
  all-append (x ∷ xs) ys = ground (arith, all-append xs ys)

  pub all→All : (xs : List A) → all p xs ≡ true → All (λ x. p x ≡ true) xs
  all→All [] h = tt
  all→All (x ∷ xs) h = (ground arith, all→All xs (ground arith))

  pub All→all : (xs : List A) → All (λ x. p x ≡ true) xs → all p xs ≡ true
  All→all [] _ = refl
  All→all (x ∷ xs) (h, hs) = ground (arith, All→all xs hs)

module _ {ℓ κ} {A : Type ℓ} (p : A → Bool) (P : A → Type κ) where
  pub drop_end_while-All : (xs : List A) → All P xs → All P (drop_end_while p xs)
  unfolding drop_end_while
  drop_end_while-All [] _ = tt
  drop_end_while-All (x ∷ xs) (h, hs) = elim (Bool-cases (is_empty (drop_end_while p xs) && p x)) [
    | inl gone ↦ rw (All, gone) tt
    | inr kept ↦ rw (All, kept) (h, drop_end_while-All xs hs)
  ]
