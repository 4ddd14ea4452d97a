-- ===== src/Page/Form.antt =====
-- web/js-src/page.js: the input fields with their mode toggle, and the control that loads a stored
-- value into them (`wireModeToggle`, `renderStorageControls`, `fillInputWithStoredValue`).
pub mod Laws
use ucollection.Base.{ℕ, Text, Bool, true, false, ◌&&◌, Option, none, some, if◌then◌else◌, trim}
use ucollection.Base.Result.{Result, ok, err}
use ucollection.Derive.{is_hex64}
use ucollection.Storage.{Subtle, Db, Access, load_mnemonic, get_meta}
use ucollection.Page.{
  Mode, consolidation, fee_topup, combined, PageData, Line, load_failed, storage_key_for,
}
use ucollection.Page.Derive.Keys.{
  InputMode, mnemonic_mode, privkey_mode, Fields, current_input_mode,
}

-- The fields, and which of them are hidden.
pub record Form : Type 0 where
  pub fields : Fields
  pub mnemonic_hidden : Bool
  pub privkey_hidden : Bool

-- `page.type === 'fee-topup'`
abbrev pub is_fee_topup : Mode → Bool
is_fee_topup consolidation = false
is_fee_topup fee_topup = true
is_fee_topup combined = false

abbrev pub is_mnemonic : InputMode → Bool
is_mnemonic mnemonic_mode = true
is_mnemonic privkey_mode = false

-- The radio button of a mode is clicked: its listener shows the field of the mode.
abbrev show_mode : InputMode → Form → Form
show_mode mode form = record form {
  mnemonic_hidden = if is_mnemonic mode then false else true;
  privkey_hidden = is_mnemonic mode;
}

unfoldable pub choose_mode : PageData → InputMode → Form → Form
choose_mode page mode form =
    let clicked = record form { fields = record form.fields { checked = some mode } } in
    if is_fee_topup page.type
    then show_mode (current_input_mode page clicked.fields) clicked
    else clicked

abbrev looks_like_private_key : Text → Bool
looks_like_private_key value = is_hex64 (trim value)

unfoldable pub fill_input_with_stored_value : PageData → Text → Form → Form
fill_input_with_stored_value page value form =
    if looks_like_private_key value && is_fee_topup page.type
    then record form {
      fields = record form.fields { privkey = value; checked = some privkey_mode };
      mnemonic_hidden = true;
      privkey_hidden = false;
    }
    else record form {
      fields = record form.fields { mnemonic = value; checked = some mnemonic_mode };
      mnemonic_hidden = false;
      privkey_hidden = true;
    }

-- `getMeta(key).catch(() => null)`: the date that is shown, if a stored value is offered.
abbrev date_of : Result (Option (Text × ℕ)) → Option ℕ
date_of (err e) = none
date_of (ok none) = none
date_of (ok (some (label, created_at))) = some created_at

unfoldable pub offered : Access → PageData → Db → Option ℕ
offered access page db = date_of (get_meta access (storage_key_for page) db).0

abbrev loaded : PageData → Result (Option Text) → Form × Line → Form × Line
loaded page (err e) (form, line) = (form, load_failed)
loaded page (ok none) (form, line) = (form, line)
loaded page (ok (some value)) (form, line) = (fill_input_with_stored_value page value form, line)

-- A click on the load button.
unfoldable pub load_click :
    {Key : Type 0} → Subtle Key → PageData → Access → Text → Db → Form × Line → Form × Line
load_click v page access password db shown =
    loaded page (load_mnemonic v access (storage_key_for page) password db).0 shown
