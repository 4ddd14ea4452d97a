-- ===== src/Page/Elements.antt =====
-- web/js-src/page.js: the elements that the page looks up, the mode toggle of the combined mode, and the
-- controls for the copy that is stored on the device (`els`, `itemStatusEl`, `wireCombinedFeeMode`,
-- `renderStorageControls`).
use ucollection.Base.{
  ℕ, ◌≡◌, ◌≢◌, refl, sym, ap, ◌∙◌, Text, codes, List, [], ◌∷◌, ◌++◌, Bool, true, false, not, Option,
  none, some, text_eq, text_beq, if◌then◌else◌, drop,
}
use ucollection.Base.Decimal.{to_string, value_from, value_from-to_string}
use ucollection.Page.{PageData}
use ucollection.Page.Form.{is_mnemonic, offered}
use ucollection.Page.Derive.Keys.{InputMode, mode_of, CombinedFields}
use ucollection.Storage.{Db, Access}

-- `els`
pub data Element : Type 0 where
  items_loading items_list mode_toggle mnemonic_field privkey_field mnemonic_input : Element
  privkey_input storage_controls derive_button sign_button sign_status totp_code_input : Element
  combined_inputs combined_master_mnemonic combined_fee_mnemonic_field : Element
  combined_fee_privkey_field combined_fee_mnemonic combined_fee_privkey : Element

unfoldable pub element_id : Element → Text
element_id items_loading = codes "items-loading"
element_id items_list = codes "items-list"
element_id mode_toggle = codes "input-mode-toggle"
element_id mnemonic_field = codes "mnemonic-field"
element_id privkey_field = codes "privkey-field"
element_id mnemonic_input = codes "mnemonic"
element_id privkey_input = codes "privkey-hex"
element_id storage_controls = codes "storage-controls"
element_id derive_button = codes "derive-button"
element_id sign_button = codes "sign-button"
element_id sign_status = codes "sign-status"
element_id totp_code_input = codes "totp-code-input"
element_id combined_inputs = codes "combined-inputs"
element_id combined_master_mnemonic = codes "combined-master-mnemonic"
element_id combined_fee_mnemonic_field = codes "combined-fee-mnemonic-field"
element_id combined_fee_privkey_field = codes "combined-fee-privkey-field"
element_id combined_fee_mnemonic = codes "combined-fee-mnemonic"
element_id combined_fee_privkey = codes "combined-fee-privkey"

-- The id that `itemStatusEl` looks up.
unfoldable pub item_status_id : ℕ → Text
item_status_id order_id = codes "item-status-" ++ to_string order_id

-- `combinedFeeMode`
abbrev combined_fee_mode : CombinedFields → InputMode
combined_fee_mode fields = mode_of fields.fee_checked

-- The fields of the combined mode, and which of the two for the fee source are hidden.
pub record CombinedForm : Type 0 where
  pub fields : CombinedFields
  pub fee_mnemonic_hidden : Bool
  pub fee_privkey_hidden : Bool

-- A radio button of the fee source is clicked: its listener shows the field of the mode.
unfoldable pub choose_fee_mode : InputMode → CombinedForm → CombinedForm
choose_fee_mode mode form =
    let fields = record form.fields { fee_checked = some mode } in
    record {
      fields = fields;
      fee_mnemonic_hidden = not (is_mnemonic (combined_fee_mode fields));
      fee_privkey_hidden = is_mnemonic (combined_fee_mode fields);
    }

-- The note on a stored copy: its text in front of the date, its date, and the field for its password.
pub record StoredInfo : Type 0 where
  pub text : Text
  pub created_at : ℕ
  pub unlock_label : Text
  pub unlock_password : Text
  pub unlock_button : Text

-- What `renderStorageControls` puts into `#storage-controls`: the note, where there is a stored copy, and
-- the box to remember the input, with a password field.
pub record StorageControls : Type 0 where
  pub info : Option StoredInfo
  pub remember : Bool
  pub remember_label : Text
  pub password : Text
  pub password_hidden : Bool
  pub password_label : Text

abbrev info_of : Option ℕ → Option StoredInfo
info_of none = none
info_of (some created_at) = some (record {
  text = codes "此裝置已儲存過這個錢包的助記詞/私鑰";
  created_at = created_at;
  unlock_label = codes "本機加密密碼 ";
  unlock_password = [];
  unlock_button = codes "載入已儲存的內容";
})

unfoldable pub render_storage_controls : Access → PageData → Db → StorageControls
render_storage_controls access page db = record {
  info = info_of (offered access page db);
  remember = false;
  remember_label =
      codes " 核對通過後，加密記住這台裝置上的助記詞/私鑰（僅供下次省得重新輸入，遺失本機資料不影響助記詞本身安全性，請務必另外備份助記詞原文——需求書5.9）";
  password = [];
  password_hidden = true;
  password_label = codes "本機加密密碼（與後台登入密碼無關，請另外記住） ";
}

-- The listener of the box, after the user set it.
unfoldable pub change_remember : Bool → StorageControls → StorageControls
change_remember checked controls = record controls {
  remember = checked;
  password_hidden = not checked;
}

-- The element with an id, by a search through all of them.
abbrev candidates : List Element
candidates =
    items_loading ∷ items_list ∷ mode_toggle ∷ mnemonic_field ∷ privkey_field ∷ mnemonic_input
    ∷ privkey_input ∷ storage_controls ∷ derive_button ∷ sign_button ∷ sign_status ∷ totp_code_input
    ∷ combined_inputs ∷ combined_master_mnemonic ∷ combined_fee_mnemonic_field
    ∷ combined_fee_privkey_field ∷ combined_fee_mnemonic ∷ combined_fee_privkey ∷ []

find_by_id : Text → List Element → Option Element
find_by_id id [] = none
find_by_id id (e ∷ es) = if text_beq id (element_id e) then some e else find_by_id id es

find_by_id_lem : (e : Element) → find_by_id (element_id e) candidates ≡ some e
unfolding find_by_id element_id text_beq
find_by_id_lem items_loading = refl
find_by_id_lem e = refl

no_status_element : (order_id : ℕ) → find_by_id (item_status_id order_id) candidates ≡ none
unfolding find_by_id element_id text_beq item_status_id
no_status_element order_id = refl

some-injective : {e f : Element} → some e ≡ some f → e ≡ f
some-injective h = cc h

-- The ids of the page are those of one element each.
pub record DistinctIds : Type 0 where
  pub elements : (e f : Element) → element_id e ≡ element_id f → e ≡ f
  pub cells : (m n : ℕ) → item_status_id m ≡ item_status_id n → m ≡ n
  pub apart : (e : Element) (n : ℕ) → element_id e ≢ item_status_id n

-- No two elements that the signing page looks up share an id, no two orders share the id of a
-- status cell, and no status cell has the id of another element.
ids_distinct : DistinctIds
unfolding item_status_id
ids_distinct = record {
  elements = λ e f h.
      some-injective
        (sym (find_by_id_lem e) ∙ ap (λ t. find_by_id t candidates) h ∙ find_by_id_lem f);
  cells = λ m n h.
      sym (value_from-to_string m) ∙ ap (λ t. value_from 0 (drop 12 t)) h ∙ value_from-to_string n;
  apart = λ e n h.
      cc (sym (find_by_id_lem e) ∙ ap (λ t. find_by_id t candidates) h ∙ no_status_element n);
}
