-- ===== src/Page/Single/Outcomes.antt =====
-- A run treats its items one by one: the failure of one does not keep another from its outcome.
use ucollection.Base.{
  ℕ, Text, List, [], ◌∷◌, false, Option, none, some, ◌≡◌, ◌≢◌, refl, ◌⊎◌, inl, inr, All, Bool-cases,
  is_empty, trim, ◌==◌, nat_eq, nat_beq_iff, arith, ap, sym, ◌∙◌,
}
use ucollection.Base.Result.{Failure, Result, ok, err}
use ucollection.Crypto.{Bytes, Crypto}
use ucollection.Page.{
  PageData, Item, Request, Reply, Exchange, Session, Note, get_key, Body, Call, outcome, failed,
  Label,
}
use ucollection.Page.Run.{Run, ◌>>=◌, after, set_note, post, Maintains, maintains_rules}
use ucollection.Page.Single.{
  found_key, key_of, sign_and_broadcast, process_one_item, caught, process_items, started,
  handle_sign_and_broadcast,
}

-- What a status cell shows when an item is done with: the server's answer, or the error.
abbrev pub IsFinal : Note → Type 0
IsFinal note = ((l : Label) × (note ≡ outcome l)) ⊎ ((e : Failure) × (note ≡ failed e))

-- An item's part of a run returns with its cell final; it may throw before.
record EndsFinal {A : Type 0} (id : ℕ) (m : Run A) : Type 0 where
  at : (s : Session) (a : A) (t : Session) → m s ≡ (ok a, t) → IsFinal (t.notes id)

module _ {A B : Type 0} (id : ℕ) where
  after-IsFinal :
      (p : Result A × Session) (f : A → Run B) (b : B) (t : Session)
      → ((a : A) → EndsFinal id (f a))
      → after p f ≡ (ok b, t)
      → IsFinal (t.notes id)
  after-IsFinal (ok a, s) f b t k e = (k a).at s b t e
  after-IsFinal (err x, s) f b t k e = absurd (cc (ap (λ (p : Result B × Session). p.0) e))

  EndsFinal-bind :
      (m : Run A) (f : A → Run B) → ((a : A) → EndsFinal id (f a)) → EndsFinal id (m >>= f)
  unfolding ◌>>=◌
  EndsFinal-bind m f k = record { at = λ s b t e. after-IsFinal (m s) f b t k e }

EndsFinal-outcome : (id : ℕ) (l : Label) → EndsFinal id (set_note id (outcome l))
unfolding set_note
EndsFinal-outcome id l = record {
  at = λ s a t e. inl (
    l,
    sym (ap (λ (p : Result (Unit {0}) × Session). p.1.notes id) e)
        ∙ rw ((nat_beq_iff id id).1 refl),
  );
}

module _ (c : Crypto) (server : List Exchange → Request → Reply) (page : PageData) where
  sign_and_broadcast-final :
      (item : Item) (key : Bytes) (prepared : Body)
      → EndsFinal item.order_id (sign_and_broadcast c server page item key prepared)
  unfolding sign_and_broadcast
  sign_and_broadcast-final item key prepared = search (EndsFinal-bind, EndsFinal-outcome) depth 12

  process_one_item-final :
      (item : Item) (amount : Text)
      → EndsFinal item.order_id (process_one_item c server page item amount)
  unfolding process_one_item
  process_one_item-final item amount = search (EndsFinal-bind, sign_and_broadcast-final) depth 12

  caught-IsFinal :
      (item : Item) (s : Session) (p : Result (Unit {0}) × Session)
      → ((t : Session) → p ≡ (ok tt, t) → IsFinal (t.notes item.order_id))
      → IsFinal ((caught c server page item p).notes item.order_id)
  unfolding set_note
  caught-IsFinal item s (ok tt, t) h = h t refl
  caught-IsFinal item s (err e, t) h =
      inr (e, rw ((nat_beq_iff item.order_id item.order_id).1 refl))

  -- No other cell is written.
  module _ (j : ℕ) (note : Note) where
    abbrev Shows : Session → Type 0
    Shows s = s.notes j ≡ note

    set_note-Shows : (id : ℕ) (n : Note) → id ≢ j → Maintains Shows (set_note id n)
    unfolding set_note
    set_note-Shows id n ne = record { at = λ s h. ground (arith, h) }

    post-Shows : (call : Call) → Maintains Shows (post server call)
    unfolding post ◌>>=◌
    post-Shows call = record { at = λ s h. h }

    key_of-Shows : (item : Item) → Maintains Shows (key_of item)
    unfolding key_of
    key_of-Shows item = record { at = λ s h. same s h (get_key item.order_id s.derived_keys) }
      where
        same : (s : Session) → Shows s → (k : Option Bytes) → Shows (found_key s k).1
        same s h none = h
        same s h (some k) = h

    sign_and_broadcast-Shows :
        (item : Item) (key : Bytes) (prepared : Body)
        → item.order_id ≢ j
        → Maintains Shows (sign_and_broadcast c server page item key prepared)
    unfolding sign_and_broadcast
    sign_and_broadcast-Shows item key prepared ne =
        search (maintains_rules, set_note-Shows, post-Shows) depth 14

    process_one_item-Shows :
        (item : Item) (amount : Text)
        → item.order_id ≢ j
        → Maintains Shows (process_one_item c server page item amount)
    unfolding process_one_item
    process_one_item-Shows item amount ne =
        search (maintains_rules, set_note-Shows, post-Shows, key_of-Shows, sign_and_broadcast-Shows)
          depth 14

    caught-Shows :
        (item : Item) (p : Result (Unit {0}) × Session)
        → item.order_id ≢ j
        → Shows p.1
        → Shows (caught c server page item p)
    unfolding set_note
    caught-Shows item (ok _, s) ne h = h
    caught-Shows item (err e, s) ne h = ground (arith, h)

  -- One round of the loop.
  abbrev round : (ℕ → Text) → Item → Session → Session
  round amount item s =
      caught c server page item (process_one_item c server page item (amount item.order_id) s)

  round-IsFinal :
      (amount : ℕ → Text) (item : Item) (s : Session)
      → IsFinal ((round amount item s).notes item.order_id)
  round-IsFinal amount item s =
      caught-IsFinal item s _ ((process_one_item-final item (amount item.order_id)).at s tt)

  round-keeps-IsFinal :
      (amount : ℕ → Text) (item : Item) (j : ℕ) (s : Session)
      → IsFinal (s.notes j)
      → IsFinal ((round amount item s).notes j)
  round-keeps-IsFinal amount item j s h = elim (Bool-cases (item.order_id == j)) [
    | inl same ↦
        let e : item.order_id ≡ j = (nat_beq_iff item.order_id j).0 same in
        rw (← e) (round-IsFinal amount item s)
    | inr other ↦
        let ne : item.order_id ≢ j = ground arith in
        let one = process_one_item-Shows j (s.notes j) item (amount item.order_id) ne in
        rw
          (caught-Shows j (s.notes j) item
            (process_one_item c server page item (amount item.order_id) s) ne (one.at s refl))
          h
  ]

  process_items-keeps-IsFinal :
      (amount : ℕ → Text) (items : List Item) (j : ℕ) (s : Session)
      → IsFinal (s.notes j)
      → IsFinal ((process_items c server page amount items s).notes j)
  unfolding process_items
  process_items-keeps-IsFinal amount [] j s h = h
  process_items-keeps-IsFinal amount (item ∷ items) j s h =
      process_items-keeps-IsFinal amount items j _ (round-keeps-IsFinal amount item j s h)

  abbrev pub AllFinal : List Item → Session → Type 0
  AllFinal items t = All (λ (item : Item). IsFinal (t.notes item.order_id)) items

  process_items-AllFinal :
      (amount : ℕ → Text) (items : List Item) (s : Session)
      → AllFinal items (process_items c server page amount items s)
  unfolding process_items
  process_items-AllFinal amount [] s = tt
  process_items-AllFinal amount (item ∷ items) s = (
    process_items-keeps-IsFinal amount items item.order_id _ (round-IsFinal amount item s),
    process_items-AllFinal amount items (round amount item s),
  )

  -- With a code that is not blank, a click on the sign button ends with every item of the page
  -- showing an outcome or an error, and with the derive button enabled.
  pub handle_sign_and_broadcast-AllFinal :
      (totp : Text) (amount : ℕ → Text) (s : Session)
      → is_empty (trim totp) ≡ false
      → AllFinal page.items (handle_sign_and_broadcast c server page totp amount s)
        × ((handle_sign_and_broadcast c server page totp amount s).derive_disabled ≡ false)
  unfolding handle_sign_and_broadcast
  handle_sign_and_broadcast-AllFinal totp amount s given =
      rw given (process_items-AllFinal amount page.items (started c server page totp s), refl)
