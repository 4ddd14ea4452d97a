-- ===== src/Page/Form/Laws.antt =====
-- A value that is loaded is the one that the next derivation reads.
use ucollection.Base.{◌≡◌, refl, inl, inr, Text, Bool, true, false, not, ◌&&◌, is_empty, Bool-cases}
use ucollection.Base.Result.{ok}
use ucollection.Storage.{Subtle, Db, works, new_salt, new_iv}
use ucollection.Storage.Laws.{IsAuthentic, load_mnemonic-store_mnemonic}
use ucollection.Page.{
  Mode, consolidation, fee_topup, combined, PageData, Line, is_consolidation, storage_key_for,
}
use ucollection.Page.Derive.Keys.{
  InputMode, mnemonic_mode, privkey_mode, Fields, current_input_mode, raw_value,
}
use ucollection.Page.Derive.{Device, maybe_remember_input, storage_label}
use ucollection.Page.Form.{
  Form, is_fee_topup, is_mnemonic, choose_mode, looks_like_private_key,
  fill_input_with_stored_value, load_click,
}

by_mode :
    (mode : Mode) (hex : Bool) → (is_consolidation mode ≡ true → (hex && is_fee_topup mode) ≡ false)
by_mode consolidation true h = refl
by_mode consolidation false h = refl
by_mode fee_topup hex h = cc
by_mode combined hex h = cc

-- After a stored value has been filled in, the derive button reads exactly that value from the
-- fields, in every mode of the page.
pub raw_value-fill_input_with_stored_value :
    (page : PageData) (value : Text) (form : Form)
    → raw_value page (fill_input_with_stored_value page value form).fields ≡ value
unfolding fill_input_with_stored_value
raw_value-fill_input_with_stored_value page value form =
    elim (Bool-cases (looks_like_private_key value && is_fee_topup page.type)) [
      | inl hex ↦ elim (Bool-cases (is_consolidation page.type)) [
        | inl mode ↦ absurd (cc (hex, by_mode page.type (looks_like_private_key value) mode))
        | inr mode ↦ rw (hex, mode)
      ]
      | inr other ↦ elim (Bool-cases (is_consolidation page.type)) [
        | inl mode ↦ rw (other, mode)
        | inr mode ↦ rw (other, mode)
      ]
    ]

pub fee_topup_only : (mode : Mode) → is_fee_topup mode ≡ true → is_consolidation mode ≡ false
fee_topup_only consolidation h = cc
fee_topup_only fee_topup h = refl
fee_topup_only combined h = refl

-- The field that is shown after a click on a mode is the one that is read.
pub choose_mode_shows :
    (page : PageData) (mode : InputMode) (form : Form)
    → is_fee_topup page.type ≡ true
    → ((choose_mode page mode form).privkey_hidden
        ≡ is_mnemonic (current_input_mode page (choose_mode page mode form).fields))
      × ((choose_mode page mode form).mnemonic_hidden
          ≡ not (is_mnemonic (current_input_mode page (choose_mode page mode form).fields)))
unfolding choose_mode
choose_mode_shows page mnemonic_mode form h = rw (h, fee_topup_only page.type h) (refl, refl)
choose_mode_shows page privkey_mode form h = rw (h, fee_topup_only page.type h) (refl, refl)

module _ {Key : Type 0} (v : Subtle Key) (page : PageData) (fields : Fields) (d : Device)
    (db db' : Db) where
  -- If an input was remembered with a password, then after a click on the load button with the same
  -- password the next derivation reads that input again, provided that the text coders read it back
  -- and AES-GCM decrypts what it has encrypted.
  pub load_click-maybe_remember_input :
      (shown : Form × Line)
      → IsAuthentic v
      → v.text_decode (v.text_encode (raw_value page fields)) ≡ raw_value page fields
      → fields.remember ≡ true
      → is_empty fields.storage_password ≡ false
      → maybe_remember_input v page fields d db ≡ (ok tt, db')
      → raw_value page (load_click v page works fields.storage_password db' shown).0.fields
        ≡ raw_value page fields
  unfolding load_click maybe_remember_input
  load_click-maybe_remember_input shown h coded remember given stored =
      let found =
        load_mnemonic-store_mnemonic v (storage_key_for page) (raw_value page fields)
          fields.storage_password (storage_label page) (new_salt d.random) (new_iv d.random) d.now
          d.access db db' (rw (remember, given) at stored) h coded in
      rw found (raw_value-fill_input_with_stored_value page (raw_value page fields) shown.0)
