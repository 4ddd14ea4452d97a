-- ===== src/Admin.antt =====
-- web/static/js/admin.js: deleting an entry of the two address books, and copying to the clipboard.
pub mod Laws
pub mod Copying
use ucollection.Base.{
  ℕ, Text, codes, List, [], ◌∷◌, ◌++◌, Bool, true, false, Option, none, some, if◌then◌else◌,
  is_empty,
}
use ucollection.Base.Decimal.{to_string}
use ucollection.Clipboard.{
  Button, Exec, copied, refused, threw, Browser, Document, copied_text, failed_text,
}

-- What `fetch` gives: it rejects, the response was redirected, or it has `ok`.
pub data Reply : Type 0 where
  rejected redirected : Reply
  response : Bool → Reply

-- What a call does, in its order: a DELETE request with its url and code, an alert, or a reload.
pub data Effect : Type 0 where
  delete_request : Text → Text → Effect
  alert_code alert_failed reload : Effect

-- The `then` and `catch` of the request.
abbrev delete_answered : Reply → Effect
delete_answered rejected = alert_failed
delete_answered redirected = alert_code
delete_answered (response true) = reload
delete_answered (response false) = alert_failed

-- `prompt` gives `none` for a cancelled dialog.
abbrev delete_at : Text → Option Text → Reply → List Effect
delete_at url none reply = []
delete_at url (some code) reply =
    if is_empty code then [] else delete_request url code ∷ delete_answered reply ∷ []

unfoldable pub delete_address_book_entry : ℕ → Option Text → Reply → List Effect
delete_address_book_entry id totp_code reply =
    delete_at (codes "/admin/consolidation/address-book/" ++ to_string id) totp_code reply

abbrev fee_source_answered : Reply → Effect
fee_source_answered rejected = alert_failed
fee_source_answered redirected = alert_code
fee_source_answered (response true) = reload
fee_source_answered (response false) = alert_failed

unfoldable pub delete_fee_source_book_entry : ℕ → Option Text → Reply → List Effect
delete_fee_source_book_entry id none reply = []
delete_fee_source_book_entry id (some code) reply =
    if is_empty code
    then []
    else delete_request (codes "/admin/consolidation/fee-source-book/" ++ to_string id) code
      ∷ fee_source_answered reply
      ∷ []

-- `flash`, on a button that may be missing.
abbrev flash : Bool → Option Button → Option Button
flash done none = none
flash done (some b) = some (record {
  text = if done then copied_text else failed_text;
  restores = b.restores ++ b.text ∷ [];
})

abbrev flashed : Bool → Document → Document
flashed done d = record d { button = flash done d.button }

-- The text area is selected when the command runs.
abbrev executed : Exec → Text → Document → Document
executed copied text d = flashed true (record d { clipboard = some text })
executed refused text d = flashed true d
executed threw text d = flashed false d

abbrev append_area : Text → Document → Document
append_area text d = record d { text_areas = text ∷ d.text_areas }

abbrev remove_area : Document → Document
remove_area d = record d { text_areas = elim d.text_areas [ [] ↦ [] | area ∷ areas ↦ areas ] }

unfoldable pub copy_to_clipboard : Browser → Text → Document → Document
copy_to_clipboard browser text d =
    if browser.has_clipboard
    then if browser.writes
      then flashed true (record d { clipboard = some text })
      else flashed false d
    else remove_area (executed browser.exec text (append_area text d))
