-- ===== src/Page/Opening.antt =====
-- web/js-src/page.js: the first steps of `initSignPage`, up to what the page shows. `parse`, a parameter, is
-- what `JSON.parse` makes of the text of `#page-data`, or an error where it throws.
use ucollection.Base.{Text, [], true, false, Option, none, some}
use ucollection.Base.Result.{Result, ok, err, ◌>>=◌, type_error}
use ucollection.Page.{PageData, Session, blank, to_check}
use ucollection.Page.Render.{View, Buttons, init_sign_page}

module _ (parse : Text → Result PageData) where
  -- `readPageData`, on the text of the element, where there is one.
  unfoldable pub read_page_data : Option Text → Result PageData
  read_page_data none = err type_error
  read_page_data (some text) = parse text

  -- The page that opens, with its table and buttons, unless reading the data throws.
  unfoldable pub open_sign_page : Option Text → Result (PageData × (View × Buttons))
  unfolding read_page_data
  open_sign_page el = do page ← read_page_data el; ok (page, init_sign_page page)

-- The variables of the closure before anything is clicked; the template disables the sign button.
abbrev pub opened_session : Session
opened_session = record {
  pending_totp_code = none;
  derived_keys = [];
  master_keys = [];
  fee_source_key = none;
  notes = λ id. to_check;
  sign_status = blank;
  sign_disabled = true;
  derive_disabled = false;
  log = [];
  slept = 0;
}
