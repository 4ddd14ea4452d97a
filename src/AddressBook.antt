-- ===== src/AddressBook.antt =====
-- web/static/js/address-book-select.js: a select of known addresses beside the input that is sent.
-- Each select has an input of its own, so a pair of the two is the state that its listener works on.
pub mod Laws
use ucollection.Base.{
  Text, codes, List, map, Bool, true, false, Option, none, some, ◌==◌, text_eq, if◌then◌else◌,
}

pub record Select : Type 0 where
  pub value : Text
  pub hidden : Bool

pub record Input : Type 0 where
  pub value : Text
  pub hidden : Bool
  pub focused : Bool

-- A select of the document with the input that `data-target-input` names, where there is one.
pub record Pair : Type 0 where
  pub select : Select
  pub input : Option Input

-- `MANUAL`
abbrev pub manual : Text
manual = codes "__manual__"

abbrev pub sync_input : Bool → Text → Input → Input
sync_input user_initiated chosen input =
    if chosen == manual
    then record {
      value = codes "";
      hidden = false;
      focused = if user_initiated then true else input.focused;
    }
    else record input { value = chosen; hidden = true }

unfoldable pub bind : Pair → Pair
bind p = elim p.input [
  | none ↦ p
  | some input ↦ record {
    select = record p.select { hidden = false };
    input = some (sync_input false p.select.value input);
  }
]

-- The listener of `change`, after the user chose an option with this value.
unfoldable pub change : Text → Pair → Pair
change chosen p = elim p.input [
  | none ↦ record p { select = record p.select { value = chosen } }
  | some input ↦ record {
    select = record p.select { value = chosen };
    input = some (sync_input true chosen input);
  }
]

unfoldable pub bind_all : List Pair → List Pair
bind_all pairs = map bind pairs
