-- ===== src/MasterWallet/Tests.antt =====
-- A wallet that is generated, backed up and sent, with the HD wallet of Derive/Example.
use ucollection.Base.{
  ℕ, ◌<◌, ◌≡◌, some, All, length, arith, codes, List, [], ◌∷◌, true, false, none, refl, inl,
}
use ucollection.Derive.Example.{toy_wallet}
use ucollection.MasterWallet.{
  State, blank, Event, generated, backup_verified, submitted, answer_came, redirected, run,
}
use ucollection.MasterWallet.Laws.{IsShown, run-IsShown}
use ucollection.MasterWallet.Positions.{
  min, backup_verify_word_count, contains, add, distinct, random_distinct_positions, IsAscending,
  random_distinct_positions_lem,
}

abbrev opened : State
opened = record {
  pending_xpub = none;
  pending_generated_mnemonic = none;
  existing_hidden = false;
  new_hidden = true;
  generated_hidden = true;
  asked = [];
  confirm_hidden = true;
  xpub_tail = [];
  status = blank;
  posted = [];
  left = false;
}

abbrev events : List Event
events =
    generated (codes "one two three four five") (0 ∷ 1 ∷ 3 ∷ 4 ∷ [])
    ∷ backup_verified
        ((0, codes "one") ∷ (1, codes "two") ∷ (3, codes " four") ∷ (4, codes "five") ∷ [])
    ∷ submitted (codes "123456") true
    ∷ answer_came redirected
    ∷ []

run-IsShown_example : IsShown (run toy_wallet (λ s. s) events opened)
run-IsShown_example =
    run-IsShown toy_wallet (λ s. s) events opened (record { either = inl (refl, refl) })

-- A draw that comes up again is passed over.
abbrev draws : List ℕ
draws = 7 ∷ 2 ∷ 7 ∷ 11 ∷ 0 ∷ []

four_distinct : length (distinct draws []) ≡ 4
unfolding distinct add contains
four_distinct = refl

random_distinct_positions_lem_example :
    (positions : List ℕ) × (random_distinct_positions draws 12 backup_verify_word_count
      ≡ some positions)
    × IsAscending positions
    × All (λ p. p < 12) positions
    × (length positions ≡ min 4 12)
random_distinct_positions_lem_example =
    random_distinct_positions_lem draws 12 backup_verify_word_count (omega arith)
      (omega (arith, four_distinct))
