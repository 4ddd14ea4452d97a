-- ===== src/Page/Tests.antt =====
-- The theorems on the page at the pages of Page/Example.
use ucollection.Base.{◌≡◌, refl, ◌⊎◌, codes, [], ◌∷◌, false, some, is_empty, trim}
use ucollection.Base.Result.{ok}
use ucollection.Crypto.Toy.{toy, toy-IsLawful}
use ucollection.Derive.{address_from_private_key}
use ucollection.Derive.Example.{toy_wallet, address_from_private_key-toy}
use ucollection.Sign.Example.{key, prepared, signed, signed-Signed, address_of}
use ucollection.Storage.{works}
use ucollection.Page.Combined.Order.{Ordered, run_combined_flow-Ordered}
use ucollection.Page.{PageData, Item, consolidation, fee_topup, combined, blank, usdt}
use ucollection.Page.Run.Codes.{FirstCoded}
use ucollection.Page.Gate.{authorise}
use ucollection.Page.Gate.Laws.{Passed, authorise-Passed, authorise_complete}
use ucollection.Page.Gate.Log.{LogIsGated}
use ucollection.Page.Single.{handle_sign_and_broadcast}
use ucollection.Page.Single.Gated.{handle_sign_and_broadcast-Gated}
use ucollection.Page.Single.Codes.{handle_sign_and_broadcast_code}
use ucollection.Page.Single.Outcomes.{AllFinal, handle_sign_and_broadcast-AllFinal}
use ucollection.Page.Combined.{
  started, combined_steps, run_combined_flow, pending_among, combined_pending_items, poll,
}
use ucollection.Page.Combined.Gated.{run_combined_flow-Gated}
use ucollection.Page.Combined.Codes.{run_combined_flow_code}
use ucollection.Page.Combined.Phases.{Post}
use ucollection.Page.Combined.Wiped.{Gone, HeldForTopUps, Cleared, run_combined_flow-HeldForTopUps}
use ucollection.Page.Combined.Wait.{Waited, poll-Waited}
use ucollection.Page.Life.{Tab, here, next, signs, Reach-LogIsGated}
use ucollection.Page.Derive.{handle_derive, handle_derive_combined}
use ucollection.Page.Derive.Laws.{Derived, handle_derive-Derived}
use ucollection.Page.Derive.Combined.{DerivedBoth, handle_derive_combined-DerivedBoth}
use ucollection.Storage.Example.{toy_subtle, toy_subtle-IsAuthentic, store_mnemonic-toy_subtle}
use ucollection.Page.Derive.Keys.{raw_value}
use ucollection.Page.Derive.{maybe_remember_input}
use ucollection.Page.Form.{load_click}
use ucollection.Page.Form.Laws.{load_click-maybe_remember_input}
use ucollection.Page.Example.{
  item, page_of, seed_page, server, ready, fields, device, plain, empty, both_fields, form,
}

has_address : address_from_private_key toy key ≡ ok (address_of key)
has_address = address_from_private_key-toy key

authorised : authorise toy (some prepared) key (address_of key) ≡ ok (some signed)
authorised =
    authorise_complete toy toy-IsLawful prepared signed key (address_of key) signed-Signed
      has_address

authorise_complete_example : authorise toy (some prepared) key (address_of key) ≡ ok (some signed)
authorise_complete_example =
    authorise_complete toy toy-IsLawful prepared signed key (address_of key) signed-Signed
      has_address

authorise-Passed_example : Passed toy (address_of key) (some signed)
authorise-Passed_example = authorise-Passed toy (address_of key) (some prepared) key authorised

handle_sign_and_broadcast-Gated_example :
    LogIsGated toy (page_of consolidation) (
      handle_sign_and_broadcast toy server
        (page_of consolidation)
        (codes "123456")
        (λ id. [])
        ready)
handle_sign_and_broadcast-Gated_example =
    handle_sign_and_broadcast-Gated toy server (page_of consolidation) (codes "123456") (λ id. [])
      ready tt

abbrev open_tab : Tab
open_tab = record { session = ready; db = empty }

Reach-LogIsGated_example :
    LogIsGated toy (page_of consolidation) (
      handle_sign_and_broadcast toy server
        (page_of consolidation)
        (codes "123456")
        (λ id. [])
        ready)
Reach-LogIsGated_example =
    Reach-LogIsGated toy_wallet toy toy_subtle server (page_of consolidation) {t = open_tab} tt
      (next here (signs (codes "123456") (λ id. []) refl refl))

handle_sign_and_broadcast_code_example :
    let t =
      handle_sign_and_broadcast toy server
        (page_of fee_topup)
        (codes "123456")
        (λ id. codes "30")
        ready in
    (t.log ≡ []) ⊎ FirstCoded (trim (codes "123456")) [] t.log
handle_sign_and_broadcast_code_example =
    handle_sign_and_broadcast_code toy server (page_of fee_topup) (codes "123456")
      (λ id. codes "30") ready

given : is_empty (trim (codes "123456")) ≡ false
unfolding trim
given = refl

handle_sign_and_broadcast-AllFinal_example :
    let t =
      handle_sign_and_broadcast toy server
        (page_of fee_topup)
        (codes "123456")
        (λ id. codes "30")
        ready in
    AllFinal toy server (page_of fee_topup) (item ∷ []) t × (t.derive_disabled ≡ false)
handle_sign_and_broadcast-AllFinal_example =
    handle_sign_and_broadcast-AllFinal toy server (page_of fee_topup) (codes "123456")
      (λ id. codes "30") ready given

run_combined_flow-Gated_example :
    LogIsGated toy
      (page_of combined)
      (run_combined_flow toy server (page_of combined) (codes "123456") ready)
run_combined_flow-Gated_example =
    run_combined_flow-Gated toy server (page_of combined) (codes "123456") ready tt

run_combined_flow_code_example :
    let t = run_combined_flow toy server (page_of combined) (codes "123456") ready in
    (t.log ≡ []) ⊎ FirstCoded (trim (codes "123456")) [] t.log
run_combined_flow_code_example =
    run_combined_flow_code toy server (page_of combined) (codes "123456") ready

abbrev second : Item
second = record item { order_id = 2 }

abbrev two_orders : PageData
two_orders = record (page_of combined) { items = item ∷ second ∷ [] }

two_pending : combined_pending_items two_orders ≡ item ∷ second ∷ []
unfolding pending_among
two_pending = refl

run_combined_flow-HeldForTopUps_example :
    Post Gone (HeldForTopUps two_orders []) (
      combined_steps toy server two_orders item
        (second ∷ [])
        (started toy server two_orders (codes "123456") ready))
    × Cleared toy server two_orders
        (codes "123456")
        ready
        (run_combined_flow toy server two_orders (codes "123456") ready)
run_combined_flow-HeldForTopUps_example =
    run_combined_flow-HeldForTopUps toy server two_orders (codes "123456") ready item (second ∷ [])
      two_pending

run_combined_flow-Ordered_example :
    Ordered two_orders item [] (run_combined_flow toy server two_orders (codes "123456") ready)
run_combined_flow-Ordered_example =
    run_combined_flow-Ordered toy server two_orders (codes "123456") ready item (second ∷ [])
      two_pending

poll-Waited_example :
    Waited toy server
      (page_of combined)
      (some (codes "ab"))
      usdt
      40
      ready
      (poll toy server (page_of combined) 40 (some (codes "ab")) usdt ready)
poll-Waited_example = poll-Waited toy server (page_of combined) (some (codes "ab")) usdt 40 ready

handle_derive-Derived_example :
    Derived toy_wallet toy
      (seed_page consolidation)
      (handle_derive toy_wallet toy (seed_page consolidation) plain fields device ready empty)
      empty
handle_derive-Derived_example =
    handle_derive-Derived toy_wallet toy (seed_page consolidation) plain fields device ready empty

handle_derive_combined-DerivedBoth_example :
    DerivedBoth toy_wallet toy
      (seed_page combined)
      (handle_derive_combined toy_wallet toy (seed_page combined) both_fields ready)
handle_derive_combined-DerivedBoth_example =
    handle_derive_combined-DerivedBoth toy_wallet toy (seed_page combined) both_fields ready

remembered :
    maybe_remember_input toy_subtle (page_of consolidation) fields device empty
    ≡ (ok tt, (maybe_remember_input toy_subtle (page_of consolidation) fields device empty).1)
unfolding maybe_remember_input
remembered = store_mnemonic-toy_subtle _ _ _ _ _ _ _ _

load_click-maybe_remember_input_example :
    raw_value
      (page_of consolidation)
      (load_click toy_subtle
        (page_of consolidation)
        works
        (codes "pw")
        (maybe_remember_input toy_subtle (page_of consolidation) fields device empty).1
        (form, blank)).0.fields
    ≡ codes "seed"
load_click-maybe_remember_input_example =
    load_click-maybe_remember_input toy_subtle (page_of consolidation) fields device empty
      (maybe_remember_input toy_subtle (page_of consolidation) fields device empty).1 (form, blank)
      toy_subtle-IsAuthentic refl refl refl remembered
