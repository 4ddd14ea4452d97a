-- ===== src/MasterWallet/Positions.antt =====
-- web/js-src/masterwallet-page.js: `randomDistinctPositions`, which chooses the words of the new mnemonic
-- that must be typed again. The values of `Math.floor(Math.random() * total)` are the list `draws`;
-- `none` means that it is used up and the loop goes on.
use ucollection.Base.{
  ℕ, suc, ◌+◌, ◌≤◌, ◌<◌, ◌≡◌, ◌≢◌, refl, ap, ◌∙◌, inl, inr, List, [], ◌∷◌, Bool, true, false,
  Option, none, some, ltb, nat_beq, nat_beq_iff, if◌then◌else◌, length, All, All-map, Bool-cases,
  arith,
}

-- `Math.min`
abbrev pub min : ℕ → ℕ → ℕ
min a b = if ltb b a then b else a

-- `BACKUP_VERIFY_WORD_COUNT`
abbrev pub backup_verify_word_count : ℕ
backup_verify_word_count = 4

-- The set, its latest element in front.
unfoldable pub contains : ℕ → List ℕ → Bool
contains n [] = false
contains n (m ∷ ms) = if nat_beq n m then true else contains n ms

unfoldable pub add : ℕ → List ℕ → List ℕ
add n set = if contains n set then set else n ∷ set

pub draw_until : ℕ → List ℕ → List ℕ → Option (List ℕ)
draw_until size [] set = if ltb (length set) size then none else some set
draw_until size (d ∷ draws) set =
    let rest = draw_until size draws (add d set) in if ltb (length set) size then rest else some set

-- `sort((a, b) => a - b)`
pub insert : ℕ → List ℕ → List ℕ
insert n [] = n ∷ []
insert n (m ∷ ms) = if ltb n m then n ∷ m ∷ ms else m ∷ insert n ms

pub sort : List ℕ → List ℕ
sort [] = []
sort (n ∷ ns) = insert n (sort ns)

abbrev sorted : Option (List ℕ) → Option (List ℕ)
sorted none = none
sorted (some set) = some (sort set)

unfoldable pub random_distinct_positions : List ℕ → ℕ → ℕ → Option (List ℕ)
unfolding draw_until
random_distinct_positions draws total count = sorted (draw_until (min count total) draws [])

-- The values that come up, each once.
unfoldable pub distinct : List ℕ → List ℕ → List ℕ
distinct [] set = set
distinct (d ∷ draws) set = distinct draws (add d set)

abbrev pub IsAscending : List ℕ → Type 0
IsAscending [] = Unit
IsAscending (n ∷ ns) = All (λ m. n < m) ns × IsAscending ns

abbrev IsNodup : List ℕ → Type 0
IsNodup [] = Unit
IsNodup (n ∷ ns) = All (λ m. n ≢ m) ns × IsNodup ns

absent_of_contains : (n : ℕ) (ms : List ℕ) → contains n ms ≡ false → All (λ m. n ≢ m) ms
unfolding contains
absent_of_contains n [] h = tt
absent_of_contains n (m ∷ ms) h = elim (Bool-cases (nat_beq n m)) [
  | inl same ↦ absurd (cc (rw same at h))
  | inr other ↦ ((λ e. cc (other, (nat_beq_iff n m).1 e)), absent_of_contains n ms (rw other at h))
]

add-IsNodup : (n : ℕ) (set : List ℕ) → IsNodup set → IsNodup (add n set)
unfolding add
add-IsNodup n set h = elim (Bool-cases (contains n set)) [
  | inl old ↦ rw old h
  | inr new ↦ rw new (absent_of_contains n set new, h)
]

add-All : (P : ℕ → Type 0) (n : ℕ) (set : List ℕ) → P n → All P set → All P (add n set)
unfolding add
add-All P n set p h = elim (Bool-cases (contains n set)) [
  | inl old ↦ rw old h
  | inr new ↦ rw new (p, h)
]

length-add : (n : ℕ) (set : List ℕ) → length (add n set) ≤ length set + 1
unfolding add
length-add n set = elim (Bool-cases (contains n set)) [
  | inl old ↦ rw old (omega arith)
  | inr new ↦ rw new (omega arith)
]

-- What the loop has when it ends, as it does where enough values come up.
record Drawn (size : ℕ) (P : ℕ → Type 0) (set : List ℕ) : Type 0 where
  nodup : IsNodup set
  all : All P set
  full : length set ≡ size

draw_until-Drawn :
    (size : ℕ) (P : ℕ → Type 0) (draws set : List ℕ)
    → IsNodup set
    → All P set
    → All P draws
    → length set ≤ size
    → size ≤ length (distinct draws set)
    → (result : List ℕ) × (draw_until size draws set ≡ some result) × Drawn size P result
unfolding draw_until distinct
draw_until-Drawn size P [] set n a _ low high =
    (set, ground arith, record { nodup = n; all = a; full = omega arith })
draw_until-Drawn size P (d ∷ draws) set n a (p, ps) low high =
    elim (Bool-cases (ltb (length set) size)) [
      | inl short ↦ rw short (
          draw_until-Drawn size P draws (add d set) (add-IsNodup d set n) (add-All P d set p a) ps
            (ground (arith, length-add d set)) high)
      | inr long ↦ rw long (set, refl, record { nodup = n; all = a; full = ground arith })
    ]

insert-All : (P : ℕ → Type 0) (n : ℕ) (ms : List ℕ) → P n → All P ms → All P (insert n ms)
unfolding insert
insert-All P n [] p _ = (p, tt)
insert-All P n (m ∷ ms) p (q, h) = elim (Bool-cases (ltb n m)) [
  | inl less ↦ rw less (p, (q, h))
  | inr more ↦ rw more (q, insert-All P n ms p h)
]

length-insert : (n : ℕ) (ms : List ℕ) → length (insert n ms) ≡ suc (length ms)
unfolding insert
length-insert n [] = refl
length-insert n (m ∷ ms) = elim (Bool-cases (ltb n m)) [
  | inl less ↦ rw less refl
  | inr more ↦ rw more (ap suc (length-insert n ms))
]

insert-IsAscending :
    (n : ℕ) (ms : List ℕ) → All (λ m. n ≢ m) ms → IsAscending ms → IsAscending (insert n ms)
unfolding insert
insert-IsAscending n [] _ _ = (tt, tt)
insert-IsAscending n (m ∷ ms) (ne, a) (low, h) = elim (Bool-cases (ltb n m)) [
  | inl less ↦
      let n<m : n < m = ground arith in
      rw less ((n<m, All-map _ _ (λ k m<k. omega arith) ms low), (low, h))
  | inr more ↦
      rw more (insert-All (λ k. m < k) n ms (ground (arith, ne)) low, insert-IsAscending n ms a h)
]

sort-All : (P : ℕ → Type 0) (ns : List ℕ) → All P ns → All P (sort ns)
unfolding sort
sort-All P [] _ = tt
sort-All P (n ∷ ns) (p, h) = insert-All P n (sort ns) p (sort-All P ns h)

length-sort : (ns : List ℕ) → length (sort ns) ≡ length ns
unfolding sort
length-sort [] = refl
length-sort (n ∷ ns) = length-insert n (sort ns) ∙ ap suc (length-sort ns)

sort-IsAscending : (ns : List ℕ) → IsNodup ns → IsAscending (sort ns)
unfolding sort
sort-IsAscending [] _ = tt
sort-IsAscending (n ∷ ns) (a, h) =
    insert-IsAscending n (sort ns) (sort-All (λ m. n ≢ m) ns a) (sort-IsAscending ns h)

-- If the random draws are below the number of words and enough different ones come up, the loop
-- ends with positions in ascending order, all different and below the number of words, and there
-- are as many as asked for, or as many as there are words if these are fewer.
pub random_distinct_positions_lem :
    (draws : List ℕ) (total count : ℕ)
    → All (λ d. d < total) draws
    → min count total ≤ length (distinct draws [])
    → (positions : List ℕ) × (random_distinct_positions draws total count ≡ some positions)
      × IsAscending positions
      × All (λ p. p < total) positions
      × (length positions ≡ min count total)
unfolding random_distinct_positions
random_distinct_positions_lem draws total count below enough =
    let (set, e, d) =
      draw_until-Drawn (min count total) (λ p. p < total) draws [] tt tt below (omega arith)
        enough in
    (
      sort set,
      ap sorted e,
      sort-IsAscending set d.nodup,
      sort-All (λ p. p < total) set d.all,
      length-sort set ∙ d.full,
    )
