-- ===== src/Crypto/Arrays.antt =====
-- `Uint8Array` as a list of bytes: `subarray`, and `set` into an array of fixed length.
use ucollection.Base.{
  ℕ, zero, suc, ◌-◌, ◌≡◌, refl, ap, List, [], ◌∷◌, ◌++◌, arith, length, take, drop, take-append,
  drop-append, ◌+◌,
}

-- `s.subarray(from, to)`
abbrev pub subarray : ℕ → ℕ → List ℕ → List ℕ
subarray from to s = take (to - from) (drop from s)

-- `t.set(s, at)`; what would stand behind the end of `t` is dropped.
unfoldable pub write_at : ℕ → List ℕ → List ℕ → List ℕ
write_at zero [] t = t
write_at zero (x ∷ s) [] = []
write_at zero (x ∷ s) (y ∷ t) = x ∷ write_at zero s t
write_at (suc k) s [] = []
write_at (suc k) s (y ∷ t) = y ∷ write_at k s t

pub write_at-start : (s u t : List ℕ) → length s ≡ length u → write_at 0 s (u ++ t) ≡ s ++ t
unfolding write_at
write_at-start [] [] t h = refl
write_at-start [] (y ∷ u) t h = absurd (omega arith)
write_at-start (x ∷ s) [] t h = absurd (omega arith)
write_at-start (x ∷ s) (y ∷ u) t h = ap (λ l. x ∷ l) (write_at-start s u t (omega arith))

pub write_at-append :
    (k : ℕ) (s u t : List ℕ) → length u ≡ k → write_at k s (u ++ t) ≡ u ++ write_at 0 s t
unfolding write_at
write_at-append zero s [] t h = refl
write_at-append zero s (y ∷ u) t h = absurd (omega arith)
write_at-append (suc k) s [] t h = absurd (omega arith)
write_at-append (suc k) s (y ∷ u) t h = ap (λ l. y ∷ l) (write_at-append k s u t (omega arith))

-- A list cut at a place that it reaches.
pub take-length : (n : ℕ) (s : List ℕ) → length s ≡ n → take n s ≡ s
take-length zero [] h = refl
take-length zero (x ∷ s) h = absurd (omega arith)
take-length (suc n) [] h = refl
take-length (suc n) (x ∷ s) h = ap (λ l. x ∷ l) (take-length n s (omega arith))

pub drop-length : (s t : List ℕ) (n : ℕ) → length s ≡ n → drop n (s ++ t) ≡ t
drop-length s t n h = rw (← h) (drop-append s t)

pub take-prefix : (s t : List ℕ) (n : ℕ) → length s ≡ n → take n (s ++ t) ≡ s
take-prefix s t n h = rw (← h) (take-append s t)

pub take-drop : (n : ℕ) (s : List ℕ) → take n s ++ drop n s ≡ s
take-drop zero s = refl
take-drop (suc n) [] = refl
take-drop (suc n) (x ∷ s) = ap (λ l. x ∷ l) (take-drop n s)

-- The two halves of a list of known length.
pub length-halves :
    (n m : ℕ) (s : List ℕ) → length s ≡ n + m → (length (take n s) ≡ n) × (length (drop n s) ≡ m)
length-halves zero m s h = (refl, omega arith)
length-halves (suc n) m [] h = absurd (omega arith)
length-halves (suc n) m (x ∷ s) h = let (p, q) = length-halves n m s (omega arith) in (ap suc p, q)

pub length-drop : (n : ℕ) (s : List ℕ) → length (drop n s) ≡ length s - n
length-drop zero s = omega arith
length-drop (suc n) [] = omega arith
length-drop (suc n) (x ∷ s) = omega (arith, length-drop n s)
