-- ===== src/Page/Render/Laws.antt =====
-- What a page shows when it opens agrees with what its buttons will do.
use ucollection.Base.{
  ◌≡◌, ◌<◌, ◌≤◌, ◌↔◌, inl, inr, true, some, ◌==◌, nat_eq, arith, Bool-cases, nat_beq_iff,
}
use ucollection.Base.Result.{ok}
use ucollection.Trx.{max_safe_integer}
use ucollection.Trx.RoundTrip.{trx_to_sun-sun_to_trx}
use ucollection.Page.{PageData, Item, to_do}
use ucollection.Page.Single.{prepare_amount}
use ucollection.Page.Combined.{is_pending}
use ucollection.Page.Form.{is_fee_topup}
use ucollection.Page.Form.Laws.{fee_topup_only}
use ucollection.Page.Render.{initial_note, default_amount}

-- An item of the combined page is shown as one to do exactly if the combined flow will treat it.
pub initial_note-is_pending : (item : Item) → (initial_note item ≡ to_do) ↔ (is_pending item ≡ true)
unfolding initial_note
initial_note-is_pending item = ground arith

-- If the amount field of a top-up page holds what it was filled with, and the default is above 0
-- and a safe integer, the prepare requests ask for the default.
pub prepare_amount-default_amount :
    (page : PageData)
    → is_fee_topup page.type ≡ true
    → 0 < page.default_amount_per_order
    → page.default_amount_per_order ≤ max_safe_integer
    → prepare_amount page (default_amount page) ≡ ok (some page.default_amount_per_order)
unfolding prepare_amount
prepare_amount-default_amount page mode pos fits =
    elim (Bool-cases (page.default_amount_per_order == 0)) [
      | inl none_set ↦ absurd (omega (arith, (nat_beq_iff _ _).0 none_set))
      | inr set ↦ rw (
        fee_topup_only page.type mode,
        set,
        trx_to_sun-sun_to_trx page.default_amount_per_order pos fits,
      )
    ]
