-- ===== src/Orders/Steps.antt =====
-- What may happen to the tables of the orders: the operations of internal/order, in any order and with
-- any answers of the database, and what the scanner and the settings write.
use ucollection.Base.{ℕ, ◌≡◌, Text, List, [], ◌∷◌, Bool, Option, none}
use ucollection.Orders.{Status, Incoming, Db}
use ucollection.Orders.Changes.{
  Statement, evaluate_confirming, evaluate_final, expire_if_due, mark_stalled, manual_transition,
}
use ucollection.Orders.Create
use ucollection.Orders.Create.{CreateParams, find_wallet, create_order}

module _ (derive_address : Text → ℕ → Option Text) where
  pub data Step (db : Db) : Db → Type 0 where
    evaluates_confirming :
        (works : Statement → Bool) (now : ℕ) (event_id : Option Text) (order_id : ℕ)
        → Step db (evaluate_confirming works now event_id order_id db).1
    evaluates_final :
        (works : Statement → Bool) (now : ℕ) (event_id : Option Text) (order_id : ℕ)
        → Step db (evaluate_final works now event_id order_id db).1
    expires :
        (works : Statement → Bool) (now : ℕ) (event_id : Option Text) (order_id : ℕ)
        → Step db (expire_if_due works now event_id order_id db).1
    stalls :
        (works : Statement → Bool) (now : ℕ) (event_id : Option Text) (order_id : ℕ)
        → Step db (mark_stalled works now event_id order_id db).1
    overrides :
        (works : Statement → Bool) (now : ℕ) (event_id : Option Text) (order_id : ℕ) (to : Status)
        (actor note : Text)
        → Step db (manual_transition works now event_id order_id to actor note db).1
    creates :
        (works : Create.Statement → Bool) (now : ℕ) (public_token : Option Text) (p : CreateParams)
        → Step db (create_order derive_address works now public_token p db).1
    adds_wallet :
        (id : ℕ) (xpub : Text)
        → find_wallet id db.master_wallets ≡ none
        → Step db (record db {
          master_wallets =
              record { id = id; xpub = xpub; last_derived_index = 0 } ∷ db.master_wallets;
        })
    scans : (rows : List Incoming) → Step db (record db { incoming_transactions = rows })
    configures :
        (url secret : Option Text)
        → Step db (record db { webhook_url = url; webhook_secret = secret })

  pub data Reach (db : Db) : Db → Type 0 where
    here : Reach db db
    next : {x y : Db} → Reach db x → Step x y → Reach db y

-- Tables with no order.
abbrev pub no_orders : Option Text → Option Text → Db
no_orders url secret = record {
  orders = [];
  incoming_transactions = [];
  order_state_transitions = [];
  webhook_deliveries = [];
  master_wallets = [];
  webhook_url = url;
  webhook_secret = secret;
  next_order_id = 1;
}
