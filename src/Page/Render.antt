-- ===== src/Page/Render.antt =====
-- web/js-src/page.js: the tables of the items and the buttons when a page opens (`renderItems`,
-- `renderItemsCombined`, `initCombinedMode`, and the end of `initSignPage`). A table is the list of the
-- texts of its rows.
pub mod Laws
use ucollection.Base.{
  ℕ, Text, codes, List, [], ◌∷◌, ◌++◌, map, Bool, true, false, Option, none, some, ltb, ◌==◌,
  nat_eq, if◌then◌else◌, is_empty,
}
use ucollection.Base.Decimal.{to_string}
use ucollection.Trx.{sun_to_trx}
use ucollection.Page.{
  Mode, consolidation, fee_topup, combined, PageData, Item, Note, to_check, skipped_unknown,
  skipped_consolidated, skipped_empty, to_do, Line, blank, no_items, nothing_pending,
  is_consolidation,
}
use ucollection.Page.Form.{is_fee_topup}
use ucollection.Page.Combined.{combined_pending_items}

pub record Row : Type 0 where
  pub cells : List Text
  pub note : Note

pub record View : Type 0 where
  pub summary : Text
  pub rows : List Row
  -- the text of the amount field, where there is one
  pub amount : Option Text
  -- the amounts for the first and the other items, in the combined mode
  pub targets : Option (Text × Text)

abbrev summary_of : PageData → Text
summary_of page =
    if is_consolidation page.type
    then codes "目的地地址：" ++ page.destination_address
    else codes "TRX來源地址：" ++ page.fee_source_address ++ codes "（分類：" ++ page.fee_source ++ codes "）"

abbrev row_of : Item → Row
row_of item = record { cells = to_string item.order_id ∷ item.address ∷ []; note = to_check }

-- `if (page.default_amount_per_order) amountInput.value = ...`
abbrev pub default_amount : PageData → Text
default_amount page =
    if page.default_amount_per_order == 0 then [] else sun_to_trx page.default_amount_per_order

unfoldable pub render_items : PageData → View
render_items page = record {
  summary = summary_of page;
  rows = map row_of page.items;
  amount = if is_fee_topup page.type then some (default_amount page) else none;
  targets = none;
}

unfoldable pub initial_note : Item → Note
initial_note item =
    if item.onchain_error
    then skipped_unknown
    else if item.already_consolidated
    then skipped_consolidated
    else if ltb 0 item.usdt_balance
    then to_do
    else skipped_empty

abbrev combined_row_of : Item → Row
combined_row_of item = record {
  cells =
      to_string item.order_id
      ∷ item.address
      ∷ sun_to_trx item.usdt_balance
      ∷ sun_to_trx item.trx_balance
      ∷ [];
  note = initial_note item;
}

unfoldable pub render_items_combined : PageData → View
render_items_combined page = record {
  summary =
      codes "目的地地址："
      ++ page.destination_address
      ++ 0x3000 ∷ codes "TRX來源："
      ++ page.fee_source_address
      ++ codes "（分類："
      ++ page.fee_source
      ++ codes "）";
  rows = map combined_row_of page.items;
  amount = none;
  targets = some (sun_to_trx page.first_amount_per_order, sun_to_trx page.repeat_amount_per_order);
}

-- The buttons and the status line, and whether clicks are listened to.
pub record Buttons : Type 0 where
  pub line : Line
  pub derive_disabled : Bool
  pub sign_disabled : Bool
  pub wired : Bool

abbrev refused : Line → Buttons
refused line = record { line = line; derive_disabled = true; sign_disabled = true; wired = false }

-- The template shows the sign button disabled, and the derive button enabled.
abbrev open_for_input : Buttons
open_for_input = record {
  line = blank;
  derive_disabled = false;
  sign_disabled = true;
  wired = true;
}

unfoldable pub init_combined_mode : PageData → View × Buttons
init_combined_mode page = (
  render_items_combined page,
  if is_empty (combined_pending_items page) then refused nothing_pending else open_for_input,
)

abbrev pub is_combined : Mode → Bool
is_combined consolidation = false
is_combined fee_topup = false
is_combined combined = true

unfoldable pub init_sign_page : PageData → View × Buttons
init_sign_page page =
    if is_combined page.type
    then init_combined_mode page
    else (render_items page, if is_empty page.items then refused no_items else open_for_input)
