-- ===== src/Page/Single/Gated.antt =====
-- Every broadcast of a run has passed the gates.
use ucollection.Base.{
  ℕ, Text, List, [], ◌∷◌, Option, none, some, ◌≡◌, refl, inl, inr, Bool-cases, is_empty, trim,
}
use ucollection.Base.Result.{Result, ok, err}
use ucollection.Crypto.{Bytes, Crypto}
use ucollection.Sign.{Transaction}
use ucollection.Page.{
  Mode, consolidation, fee_topup, combined, PageData, Item, broadcast, Request, Body, Reply,
  Exchange, Session, get_key,
}
use ucollection.Page.Run.{set_note, Maintains, Maintains-bind, Maintains-bind-lift}
use ucollection.Page.Gate.{authorise}
use ucollection.Page.Gate.Laws.{authorise-Passed}
use ucollection.Page.Gate.Log.{Any, IsExpected, IsGated, LogIsGated, set_note-Gated, gated_rules}
use ucollection.Page.Single.{
  flow_of, expected_address, found_key, key_of, sign_and_broadcast, process_one_item, caught,
  process_items, handle_sign_and_broadcast,
}

-- The address that an item is checked against is one of the page's for its flow.
expected_address-IsExpected :
    (page : PageData) (item : Item)
    → Any (λ (i : Item). i ≡ item) page.items
    → IsExpected page (flow_of page.type) (expected_address page item)
expected_address-IsExpected page item m = by_mode page.type
  where
    among :
        (items : List Item)
        → Any (λ (i : Item). i ≡ item) items
        → Any (λ (i : Item). i.address ≡ item.address) items
    among [] m = m
    among (i ∷ items) (inl e) = inl (cc)
    among (i ∷ items) (inr m) = inr (among items m)

    by_mode :
        (mode : Mode)
        → IsExpected page (flow_of mode) (expected_address (record page { type = mode }) item)
    by_mode consolidation = among page.items m
    by_mode fee_topup = refl
    by_mode combined = refl

module _ (c : Crypto) (server : List Exchange → Request → Reply) (page : PageData) where
  key_of-Gated : (item : Item) → Maintains (LogIsGated c page) (key_of item)
  unfolding key_of
  key_of-Gated item = record { at = λ s h. same s h (get_key item.order_id s.derived_keys) }
    where
      same :
          (s : Session)
          → LogIsGated c page s
          → (k : Option Bytes) → LogIsGated c page (found_key s k).1
      same s h none = h
      same s h (some k) = h

  sign_and_broadcast-Gated :
      (item : Item) (key : Bytes) (prepared : Body)
      → Any (λ (i : Item). i ≡ item) page.items
      → Maintains (LogIsGated c page) (sign_and_broadcast c server page item key prepared)
  unfolding sign_and_broadcast
  sign_and_broadcast-Gated item key prepared m =
      Maintains-bind _ _ (set_note-Gated c page _ _)
        λ _. Maintains-bind-lift _ _ λ signed e. search (gated_rules, gated signed e)
    where
      gated :
          (signed : Option Transaction)
          → authorise c prepared.transaction key (expected_address page item) ≡ ok signed
          → IsGated c page (broadcast (flow_of page.type) prepared.item_id signed)
      gated signed e = (
        expected_address page item,
        expected_address-IsExpected page item m,
        authorise-Passed c (expected_address page item) prepared.transaction key e,
      )

  process_one_item-Gated :
      (item : Item) (amount : Text)
      → Any (λ (i : Item). i ≡ item) page.items
      → Maintains (LogIsGated c page) (process_one_item c server page item amount)
  unfolding process_one_item
  process_one_item-Gated item amount m = search (gated_rules, key_of-Gated, rest) depth 14
    where
      rest :
          (key : Bytes) (prepared : Body)
          → Maintains (LogIsGated c page) (sign_and_broadcast c server page item key prepared)
      rest key prepared = sign_and_broadcast-Gated item key prepared m

  caught-Gated :
      (item : Item) (p : Result (Unit {0}) × Session)
      → LogIsGated c page p.1
      → LogIsGated c page (caught c server page item p)
  unfolding set_note
  caught-Gated item (ok _, s) h = h
  caught-Gated item (err e, s) h = h

  process_items-Gated :
      (amount : ℕ → Text) (items : List Item) (s : Session)
      → ((item : Item)
          → Any (λ (i : Item). i ≡ item) items
          → Any (λ (i : Item). i ≡ item) page.items)
      → LogIsGated c page s
      → LogIsGated c page (process_items c server page amount items s)
  unfolding process_items
  process_items-Gated amount [] s sub h = h
  process_items-Gated amount (item ∷ items) s sub h =
      process_items-Gated amount items _ (λ i m. sub i (inr m))
        (caught-Gated item (process_one_item c server page item (amount item.order_id) s)
          ((process_one_item-Gated item (amount item.order_id) (sub item (inl refl))).at s h))

  -- If all broadcasts in the log so far have passed both gates, then so have all after a click on
  -- the sign button, whatever the server answers and the fields hold: each sent transaction was
  -- signed by some key after its id had been checked against the hash of its data, and its
  -- signature leads back to the address of an item of the page, for a consolidation, or of the fee
  -- source, for a top-up.
  pub handle_sign_and_broadcast-Gated :
      (totp : Text) (amount : ℕ → Text) (s : Session)
      → LogIsGated c page s
      → LogIsGated c page (handle_sign_and_broadcast c server page totp amount s)
  unfolding handle_sign_and_broadcast
  handle_sign_and_broadcast-Gated totp amount s h = elim (Bool-cases (is_empty (trim totp))) [
    | inl missing ↦ rw missing h
    | inr given ↦ rw given (process_items-Gated amount page.items _ (λ _ m. m) h)
  ]
