-- ===== src/MasterWallet.antt =====
-- web/js-src/masterwallet-page.js: the page on which a master wallet is added. The generated mnemonic,
-- the positions that are asked for and the answer of the server are arguments of the events, and
-- `toLowerCase` is a parameter; the HD library is that of Derive.
pub mod Laws
pub mod Positions
mod Tests
use ucollection.Base.{
  ℕ, zero, suc, Text, codes, List, [], ◌∷◌, Bool, true, false, not, Option, none, some, ◌==◌,
  nat_eq, text_eq, if◌then◌else◌, is_empty, trim, slice_last,
}
use ucollection.Base.Result.{Failure, Result, ok, err}
use ucollection.Derive.{HdWallet, derive_account_xpub}

-- The texts of `#wallet-status`.
pub data Status : Type 0 where
  blank bad_mnemonic no_mnemonic_yet backup_wrong backup_right no_xpub no_code sending : Status
  intercepted duplicate : Status
  thrown : Failure → Status
  refused : Option Text → ℕ → Status

-- The two variables of the module and what the page shows; `posted` holds the requests, the latest in
-- front, by code and xpub, and `left` says that the browser went to another page.
pub record State : Type 0 where
  pub pending_xpub : Option Text
  pub pending_generated_mnemonic : Option Text
  pub existing_hidden : Bool
  pub new_hidden : Bool
  pub generated_hidden : Bool
  pub asked : List ℕ
  pub confirm_hidden : Bool
  pub xpub_tail : Text
  pub status : Status
  pub posted : List (Text × Text)
  pub left : Bool

abbrev pub set_status : Status → State → State
set_status status s = record s { status = status }

abbrev pub show_confirm : Text → State → State
show_confirm xpub s = record s {
  pending_xpub = some xpub;
  xpub_tail = slice_last 4 xpub;
  confirm_hidden = false;
}

abbrev pub hide_confirm_box : State → State
hide_confirm_box s = record s { pending_xpub = none; confirm_hidden = true }

unfoldable pub on_mode_change : Bool → State → State
on_mode_change is_existing s =
    set_status blank
      (hide_confirm_box (record s { existing_hidden = not is_existing; new_hidden = is_existing }))

-- The `try` around `showConfirm(deriveAccountXpub(...))`, and what follows it.
unfoldable pub confirm_derived : Result Text → (State → State) → State → State
confirm_derived (ok xpub) after s = after (show_confirm xpub s)
confirm_derived (err e) after s = set_status (thrown e) s

unfoldable pub on_existing_derive : {Node : Type 0} → HdWallet Node → Text → State → State
on_existing_derive w typed s =
    if not (w.validate_mnemonic (trim typed))
    then set_status bad_mnemonic s
    else confirm_derived (derive_account_xpub w (some (trim typed))) (λ t. t) s

unfoldable pub on_generate : Text → List ℕ → State → State
on_generate mnemonic positions s = set_status blank (
    hide_confirm_box (record s {
      pending_generated_mnemonic = some mnemonic;
      generated_hidden = false;
      asked = positions;
    }))

-- `split(' ')`: the first word so far, and the rest of the words.
abbrev push_code : ℕ → List Text → List Text
push_code c [] = (c ∷ []) ∷ []
push_code c (word ∷ words) = (c ∷ word) ∷ words

pub split_words : Text → List Text
split_words [] = [] ∷ []
split_words (c ∷ s) = let rest = split_words s in if c == b' ' then [] ∷ rest else push_code c rest

pub word_at : List Text → ℕ → Option Text
word_at [] n = none
word_at (word ∷ words) zero = some word
word_at (word ∷ words) (suc n) = word_at words n

-- `got !== want`, where `want` may be `undefined`.
abbrev is_word : Option Text → Text → Bool
is_word none got = false
is_word (some want) got = got == want

module _ (to_lower_case : Text → Text) where
  -- The loop over the inputs, each with its position and its text.
  unfoldable pub backup_matches : List Text → List (ℕ × Text) → Bool
  backup_matches words [] = true
  backup_matches words ((position, typed) ∷ inputs) =
      if is_word (word_at words position) (to_lower_case (trim typed))
      then backup_matches words inputs
      else false

  -- `onVerifyBackup`, on the mnemonic that is pending.
  abbrev pub verify_pending :
      {Node : Type 0} → HdWallet Node → List (ℕ × Text) → Option Text → State → State
  verify_pending w inputs none s = set_status no_mnemonic_yet s
  verify_pending w inputs (some mnemonic) s =
      if is_empty mnemonic
      then set_status no_mnemonic_yet s
      else if backup_matches (split_words mnemonic) inputs
      then confirm_derived (derive_account_xpub w (some mnemonic)) (set_status backup_right) s
      else set_status backup_wrong s

  unfoldable pub on_verify_backup :
      {Node : Type 0} → HdWallet Node → List (ℕ × Text) → State → State
  on_verify_backup w inputs s = verify_pending w inputs s.pending_generated_mnemonic s

-- What `fetch` gives: it rejects, the response was redirected, or it has a status and a JSON body, of
-- which `ok`, and the text of `error` are read.
pub data Answer : Type 0 where
  rejected : Failure → Answer
  redirected : Answer
  json : ℕ → Bool → Option Text → Answer

abbrev pub show_error : ℕ → Option Text → State → State
show_error status none s = set_status (refused none status) s
show_error status (some text) s =
    if text == codes "duplicate"
    then set_status duplicate s
    else set_status (refused (some text) status) s

unfoldable pub answered : Answer → State → State
answered (rejected e) s = set_status (thrown e) s
answered redirected s = set_status intercepted s
answered (json status okay error) s =
    if (if status == 200 then okay else false)
    then record s { left = true }
    else show_error status error s

-- `onSubmit`, on the xpub that is pending.
abbrev pub submit_pending : Text → Bool → Option Text → State → State
submit_pending typed agreed none s = set_status no_xpub s
submit_pending typed agreed (some xpub) s =
    if is_empty xpub
    then set_status no_xpub s
    else if is_empty (trim typed)
    then set_status no_code s
    else if agreed
    then set_status sending (record s { posted = (trim typed, xpub) ∷ s.posted })
    else s

unfoldable pub on_submit : Text → Bool → State → State
on_submit typed agreed s = submit_pending typed agreed s.pending_xpub s

-- What may happen on the page.
pub data Event : Type 0 where
  mode_changed : Bool → Event
  existing_derived : Text → Event
  generated : Text → List ℕ → Event
  backup_verified : List (ℕ × Text) → Event
  submitted : Text → Bool → Event
  answer_came : Answer → Event

module _ {Node : Type 0} (w : HdWallet Node) (to_lower_case : Text → Text) where
  unfoldable pub step : Event → State → State
  step (mode_changed is_existing) s = on_mode_change is_existing s
  step (existing_derived typed) s = on_existing_derive w typed s
  step (generated mnemonic positions) s = on_generate mnemonic positions s
  step (backup_verified inputs) s = on_verify_backup to_lower_case w inputs s
  step (submitted typed agreed) s = on_submit typed agreed s
  step (answer_came answer) s = answered answer s

  pub run : List Event → State → State
  run [] s = s
  run (event ∷ events) s = run events (step event s)
