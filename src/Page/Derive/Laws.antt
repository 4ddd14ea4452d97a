-- ===== src/Page/Derive/Laws.antt =====
-- What the derive button leaves behind: keys that have been compared with the page, for all items, or
-- no key at all.
use ucollection.Base.{
  ℕ, ◌≡◌, refl, ◌⊎◌, inl, inr, Text, List, [], ◌∷◌, true, false, ◌==◌, nat_eq, nat_beq_iff, All,
  Bool-cases,
}
use ucollection.Base.Result.{Failure, Result, ok, err, Result-cases}
use ucollection.Crypto.{Bytes, Crypto}
use ucollection.Derive.{HdWallet}
use ucollection.Storage.{Subtle, Db}
use ucollection.Page.{PageData, Item, Session, is_consolidation}
use ucollection.Page.Run.{
  pure, lift, ◌>>=◌, set_note, Maintains, Maintains-bind, Maintains-bind-lift, Maintains-pure,
}
use ucollection.Page.Derive.Keys.{Fields, mode_of, item_key, fee_key}
use ucollection.Page.Derive.{
  accept, Device, accept_items, accept_all, accept_fee, check_input, cleared, settle, handle_derive,
}
use ucollection.Page.Derive.Vouched.{KeysVouched, Checking, HasKey, check_input-Vouched}

module _ {Node : Type 0} (w : HdWallet Node) (c : Crypto) (page : PageData) where
  keep-HasKey :
      (id : ℕ) (item : Item) (key : Bytes) (m : List (ℕ × Bytes))
      → HasKey c page id m
      → HasKey c page id ((item.order_id, key) ∷ m)
  keep-HasKey id item key m (old, e) = elim (Bool-cases (item.order_id == id)) [
    | inl same ↦ (key, rw same)
    | inr differ ↦ (old, rw differ e)
  ]

  new-HasKey :
      (item : Item) (key : Bytes) (m : List (ℕ × Bytes))
      → HasKey c page item.order_id ((item.order_id, key) ∷ m)
  new-HasKey item key m = (key, rw ((nat_beq_iff item.order_id item.order_id).1 refl))

  module _ (id : ℕ) where
    accept-HasKey :
        (item : Item) (key : Bytes)
        → Maintains (λ s. HasKey c page id s.derived_keys) (accept item key)
    unfolding accept ◌>>=◌ set_note
    accept-HasKey item key = record { at = λ s h. keep-HasKey id item key s.derived_keys h }

    accept_items-keeps :
        (mnemonic : Text) (items : List Item)
        → Maintains (λ s. HasKey c page id s.derived_keys) (accept_items w c page mnemonic items)
    unfolding accept_items
    accept_items-keeps mnemonic [] = Maintains-pure tt
    accept_items-keeps mnemonic (item ∷ items) =
        Maintains-bind-lift _ _ λ key _.
          Maintains-bind _ _ (accept-HasKey item key) λ _. accept_items-keeps mnemonic items

    accept_all-keeps :
        (key : Bytes) (items : List Item)
        → Maintains (λ s. HasKey c page id s.derived_keys) (accept_all w c page key items)
    unfolding accept_all
    accept_all-keeps key [] = Maintains-pure tt
    accept_all-keeps key (item ∷ items) =
        Maintains-bind _ _ (accept-HasKey item key) λ _. accept_all-keeps key items

  abbrev AllHaveKeys : List Item → Session → Type 0
  AllHaveKeys items t = All (λ (item : Item). HasKey c page item.order_id t.derived_keys) items

  accept_items-found :
      (mnemonic : Text) (item : Item) (items : List Item) (s : Session) (key : Bytes)
      → item_key w c page mnemonic item ≡ ok key
      → accept_items w c page mnemonic (item ∷ items) s
        ≡ accept_items w c page mnemonic items (accept item key s).1
  unfolding accept_items ◌>>=◌ accept set_note lift
  accept_items-found mnemonic item items s key found = rw found

  accept_items-failed :
      (mnemonic : Text) (item : Item) (items : List Item) (s : Session) {e : Failure}
      → item_key w c page mnemonic item ≡ err e
      → (accept_items w c page mnemonic (item ∷ items) s).0 ≡ err e
  unfolding accept_items ◌>>=◌ lift
  accept_items-failed mnemonic item items s failed = rw failed

  moved :
      (items : List Item) (p q : Result (Unit {0}) × Session)
      → p ≡ q
      → AllHaveKeys items q.1
      → AllHaveKeys items p.1
  moved items p q e h = rw e h

  accept_items-AllHaveKeys :
      (mnemonic : Text) (items : List Item) (s : Session)
      → (accept_items w c page mnemonic items s).0 ≡ ok tt
      → AllHaveKeys items (accept_items w c page mnemonic items s).1
  accept_items-AllHaveKeys mnemonic [] s h = tt
  accept_items-AllHaveKeys mnemonic (item ∷ items) s h =
      elim (Result-cases (item_key w c page mnemonic item)) [
        | inr (e, failed) ↦ absurd (cc (h, accept_items-failed mnemonic item items s failed))
        | inl (key, found) ↦
            let u : Session = (accept item key s).1 in
            let e = accept_items-found mnemonic item items s key found in
            moved (item ∷ items) _ _ e (
              (accept_items-keeps item.order_id mnemonic items).at u
                  (unfold accept ◌>>=◌ set_note in new-HasKey item key s.derived_keys),
              accept_items-AllHaveKeys mnemonic items u (rw e at h),
            )
      ]

  accept_all-AllHaveKeys :
      (key : Bytes) (items : List Item) (s : Session)
      → (accept_all w c page key items s).0 ≡ ok tt
        × AllHaveKeys items (accept_all w c page key items s).1
  unfolding accept_all ◌>>=◌ accept set_note pure
  accept_all-AllHaveKeys key [] s = (refl, tt)
  accept_all-AllHaveKeys key (item ∷ items) s =
      let u : Session = (accept item key s).1 in
      let (e, a) = accept_all-AllHaveKeys key items u in
      (e, ((accept_all-keeps item.order_id key items).at u (new-HasKey item key s.derived_keys), a))

  check_input-AllHaveKeys :
      (fields : Fields) (s : Session)
      → (check_input w c page fields s).0 ≡ ok tt
      → AllHaveKeys page.items (check_input w c page fields s).1
  unfolding check_input accept_fee ◌>>=◌ lift
  check_input-AllHaveKeys fields s h = elim (Bool-cases (is_consolidation page.type)) [
    | inl mode ↦ rw mode (accept_items-AllHaveKeys fields.mnemonic page.items s (rw mode at h))
    | inr mode ↦
        elim (Result-cases
          (fee_key w c page (mode_of fields.checked) fields.mnemonic fields.privkey)) [
            | inr (e, failed) ↦ absurd (cc (rw (mode, failed) at h))
            | inl (key, found) ↦ rw (mode, found) (accept_all-AllHaveKeys key page.items s).1
          ]
  ]

  -- The two ways in which a click on the derive button may end.
  abbrev pub Derived : Session × Db → Db → Type 0
  Derived ends db =
      ((ends.0.sign_disabled ≡ false) × KeysVouched c page ends.0 × AllHaveKeys page.items ends.0)
      ⊎ ((ends.0.sign_disabled ≡ true) × (ends.0.derived_keys ≡ []) × (ends.1 ≡ db))

  module _ {Key : Type 0} (v : Subtle Key) where
    settle-Derived :
        (fields : Fields) (d : Device) (p : Result (Unit {0}) × Session) (db : Db)
        → Checking c page p.1
        → (p.0 ≡ ok tt → AllHaveKeys page.items p.1)
        → Derived (settle w c page v fields d p db) db
    settle-Derived fields d (ok tt, s) db h k = inl (refl, h.1, k refl)
    settle-Derived fields d (err e, s) db h k = inr (h.0, refl, refl)

    -- A click on the derive button ends in one of two ways, whatever was typed. Every key that is
    -- kept belongs to an item of the page and has the address that the item's signatures are
    -- checked for, every item has a key, and the sign button is enabled; or no key is kept, the
    -- sign button is disabled, and nothing was stored.
    pub handle_derive-Derived :
        (fields : Fields) (d : Device) (s : Session) (db : Db)
        → Derived (handle_derive w c page v fields d s db) db
    unfolding handle_derive
    handle_derive-Derived fields d s db =
        let start = cleared w c page s in
        settle-Derived fields d (check_input w c page fields start) db
          ((check_input-Vouched w c page fields).at start (refl, tt))
          (check_input-AllHaveKeys fields start)
