-- ===== src/Page/Combined/TopUps.antt =====
-- An invariant is kept by the first step of the combined flow, the top-ups, if its parts keep it.
use ucollection.Base.{ℕ, Text, List, [], ◌∷◌, Option, some, ◌≡◌, ◌-◌}
use ucollection.Base.Result.{ok}
use ucollection.Crypto.{Bytes, Crypto}
use ucollection.Sign.{Transaction}
use ucollection.Page.{
  trx_topping_up, trx_sent, PageData, Item, Flow, fee_topup_flow, Call, prepare, broadcast, Request,
  Reply, Exchange, Session, Note,
}
use ucollection.Page.Run.{
  Maintains, Maintains-bind, Maintains-bind-lift, Maintains-pure, maintains_rules, set_note, post,
}
use ucollection.Page.Gate.{authorise}
use ucollection.Page.Combined.{
  fee_source_key, prepare_sign_broadcast, send_missing, skip_topup, top_up, top_up_all,
}

module _ {P : Session → Type 0} (c : Crypto) (server : List Exchange → Request → Reply)
    (page : PageData) (Allowed : Call → Type 0)
    (sends : (call : Call) → Allowed call → Maintains P (post server call)) where
  pub prepare_sign_broadcast-Maintains :
      (flow : Flow) (batch order : ℕ) (amount : Option ℕ) (key : Bytes) (expected : Text)
      → Allowed (prepare flow batch order amount)
      → ((item_id : Option ℕ) (t sent : Option Transaction)
          → authorise c t key expected ≡ ok sent
          → Allowed (broadcast flow item_id sent))
      → Maintains (P) (prepare_sign_broadcast c server page flow batch order amount key expected)
  unfolding prepare_sign_broadcast
  prepare_sign_broadcast-Maintains flow batch order amount key expected allowed broadcasts =
      Maintains-bind _ _ (sends (prepare flow batch order amount) allowed) λ answer.
        Maintains-bind-lift _ _ λ prepared _. Maintains-bind-lift _ _ λ signed e.
          Maintains-bind _ _
            (sends (broadcast flow prepared.item_id signed)
              (broadcasts prepared.item_id prepared.transaction signed e))
            λ result. Maintains-pure _

  module _ (note : (id : ℕ) (n : Note) → Maintains P (set_note id n))
      (fee_key : Maintains P fee_source_key)
      (top_ups : (order : ℕ) (amount : Option ℕ)
        → Allowed (prepare fee_topup_flow page.fee_topup_batch_id order amount))
      (broadcasts : (key : Bytes) (item_id : Option ℕ) (t sent : Option Transaction)
        → authorise c t key page.fee_source_address ≡ ok sent
        → Allowed (broadcast fee_topup_flow item_id sent)) where
    send_missing-Maintains :
        (target : ℕ) (item : Item) (topups : List (ℕ × Option Text))
        → Maintains (P) (send_missing c server page target item topups)
    unfolding send_missing
    send_missing-Maintains target item topups =
        Maintains-bind _ _ (note item.order_id trx_topping_up) λ _.
          Maintains-bind _ _ fee_key λ key.
            Maintains-bind _ _ (topped_up key)
              λ sent. Maintains-bind _ _ (note item.order_id trx_sent) λ _. Maintains-pure _
      where
        topped_up :
            (key : Bytes)
            → Maintains (P) (
                prepare_sign_broadcast c server page fee_topup_flow page.fee_topup_batch_id
                  item.order_id
                  (some (target - item.trx_balance))
                  key
                  page.fee_source_address)
        topped_up key =
            prepare_sign_broadcast-Maintains fee_topup_flow _ _ _ key page.fee_source_address
              (top_ups item.order_id (some (target - item.trx_balance))) (broadcasts key)

    top_up-Maintains :
        (target : ℕ) (item : Item) (topups : List (ℕ × Option Text))
        → Maintains (P) (top_up c server page target item topups)
    unfolding top_up skip_topup
    top_up-Maintains target item topups =
        search (maintains_rules, note, sends, send_missing-Maintains) depth 8

    pub top_up_all-Maintains :
        (target : ℕ) (items : List Item) (topups : List (ℕ × Option Text))
        → Maintains (P) (top_up_all c server page target items topups)
    unfolding top_up_all
    top_up_all-Maintains target [] topups = search (maintains_rules, note)
    top_up_all-Maintains target (item ∷ items) topups =
        Maintains-bind _ _ (top_up-Maintains target item topups)
          λ topups'. top_up_all-Maintains page.repeat_amount_per_order items topups'
