-- ===== src/Page/Single/Codes.antt =====
-- The code that the operator types for a run is sent once.
use ucollection.Base.{
  ℕ, Text, List, [], ◌∷◌, Option, none, some, ◌≡◌, refl, ◌⊎◌, inl, inr, Bool-cases, is_empty, trim,
}
use ucollection.Base.Result.{Result, ok, err}
use ucollection.Crypto.{Bytes, Crypto}
use ucollection.Page.{PageData, Item, Request, Reply, Exchange, Session, get_key, Body}
use ucollection.Page.Run.{set_note, Maintains}
use ucollection.Page.Run.Codes.{FirstCoded, CodeOnce, code_rules}
use ucollection.Page.Single.{
  found_key, key_of, sign_and_broadcast, process_one_item, caught, process_items, started,
  handle_sign_and_broadcast,
}

module _ (c : Crypto) (server : List Exchange → Request → Reply) (page : PageData) (code : Text)
    (base : List Exchange) where
  key_of-CodeOnce : (item : Item) → Maintains (CodeOnce code base) (key_of item)
  unfolding key_of
  key_of-CodeOnce item = record { at = λ s h. same s h (get_key item.order_id s.derived_keys) }
    where
      same :
          (s : Session)
          → CodeOnce code base s
          → (k : Option Bytes) → CodeOnce code base (found_key s k).1
      same s h none = h
      same s h (some k) = h

  sign_and_broadcast-CodeOnce :
      (item : Item) (key : Bytes) (prepared : Body)
      → Maintains (CodeOnce code base) (sign_and_broadcast c server page item key prepared)
  unfolding sign_and_broadcast
  sign_and_broadcast-CodeOnce item key prepared = search code_rules depth 14

  process_one_item-CodeOnce :
      (item : Item) (amount : Text)
      → Maintains (CodeOnce code base) (process_one_item c server page item amount)
  unfolding process_one_item
  process_one_item-CodeOnce item amount =
      search (code_rules, key_of-CodeOnce, sign_and_broadcast-CodeOnce) depth 14

  caught-CodeOnce :
      (item : Item) (p : Result (Unit {0}) × Session)
      → CodeOnce code base p.1
      → CodeOnce code base (caught c server page item p)
  unfolding set_note
  caught-CodeOnce item (ok _, s) h = h
  caught-CodeOnce item (err e, s) h = h

  process_items-CodeOnce :
      (amount : ℕ → Text) (items : List Item) (s : Session)
      → CodeOnce code base s
      → CodeOnce code base (process_items c server page amount items s)
  unfolding process_items
  process_items-CodeOnce amount [] s h = h
  process_items-CodeOnce amount (item ∷ items) s h = process_items-CodeOnce amount items _ (
      caught-CodeOnce item (process_one_item c server page item (amount item.order_id) s)
        ((process_one_item-CodeOnce item (amount item.order_id)).at s h))

-- A click on the sign button sends nothing, or sends the trimmed code with the first of its
-- requests and no code with the later ones.
pub handle_sign_and_broadcast_code :
    (c : Crypto) (server : List Exchange → Request → Reply) (page : PageData) (totp : Text)
    (amount : ℕ → Text) (s : Session)
    → let t = handle_sign_and_broadcast c server page totp amount s in
      (t.log ≡ s.log) ⊎ FirstCoded (trim totp) s.log t.log
unfolding handle_sign_and_broadcast
handle_sign_and_broadcast_code c server page totp amount s =
    elim (Bool-cases (is_empty (trim totp))) [
      | inl missing ↦ inl (rw missing)
      | inr given ↦
          let start : CodeOnce (trim totp) s.log (started c server page totp s) =
            inl (refl, refl) in
          let done = process_items c server page amount page.items (started c server page totp s) in
          rw given (
            log_part done
              (process_items-CodeOnce c server page (trim totp) s.log amount page.items _ start))
    ]
  where
    log_part :
        (u : Session)
        → CodeOnce (trim totp) s.log u
        → (u.log ≡ s.log) ⊎ FirstCoded (trim totp) s.log u.log
    log_part _ (inl (_, e)) = inl e
    log_part _ (inr (_, f)) = inr f
