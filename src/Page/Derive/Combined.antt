-- ===== src/Page/Derive/Combined.antt =====
-- What `handleDeriveCombined` leaves behind: both kinds of keys, compared with the page, or none.
use ucollection.Base.{
  ◌≡◌, refl, ◌⊎◌, inl, inr, Text, List, [], ◌∷◌, true, false, Option, none, some, All,
}
use ucollection.Base.Result.{Result, ok, err}
use ucollection.Crypto.{Bytes, Crypto}
use ucollection.Derive.{HdWallet, address_from_private_key}
use ucollection.Page.{PageData, Item, Session}
use ucollection.Page.Run.{
  Run, lift, after, ◌>>=◌, Maintains, Maintains-bind, Maintains-bind-lift, Maintains-pure,
}
use ucollection.Page.Gate.Log.{Any}
use ucollection.Page.Derive.Keys.{CombinedFields, mode_of, fee_key}
use ucollection.Page.Derive.Keys.Laws.{item_key-address, fee_key-address}
use ucollection.Page.Derive.{
  accept_master, accept_fee_source, accept_masters, check_both, cleared_combined, settle_combined,
  handle_derive_combined,
}
use ucollection.Page.Derive.Vouched.{Vouched, vouch}

module _ (c : Crypto) (page : PageData) where
  -- The keys of the items have their addresses, and the key of the fee source has that one's.
  abbrev pub FeeVouched : Option Bytes → Type 0
  FeeVouched none = Unit
  FeeVouched (some key) = address_from_private_key c key ≡ ok page.fee_source_address

  abbrev pub BothVouched : Session → Type 0
  BothVouched s =
      All (Vouched c page (λ item. item.address)) s.master_keys × FeeVouched s.fee_source_key

  abbrev CheckingBoth : Session → Type 0
  CheckingBoth s = (s.sign_disabled ≡ true) × BothVouched s

module _ {Node : Type 0} (w : HdWallet Node) (c : Crypto) (page : PageData) where
  accept_masters-Vouched :
      (mnemonic : Text) (items : List Item)
      → ((item : Item)
          → Any (λ (i : Item). i ≡ item) items
          → Any (λ (i : Item). i ≡ item) page.items)
      → Maintains (CheckingBoth c page) (accept_masters w c page mnemonic items)
  unfolding accept_masters accept_master
  accept_masters-Vouched mnemonic [] sub = Maintains-pure tt
  accept_masters-Vouched mnemonic (item ∷ items) sub = Maintains-bind-lift _ _ λ key e.
      Maintains-bind _ _ (kept key (item_key-address w c page mnemonic item e))
        λ _. accept_masters-Vouched mnemonic items (λ i m. sub i (inr m))
    where
      kept :
          (key : Bytes)
          → address_from_private_key c key ≡ ok item.address
          → Maintains (CheckingBoth c page) (accept_master item key)
      kept key e = record {
        at = λ s h. (
          h.0,
          ((vouch w c page (λ i. i.address) item key (sub item (inl refl)) e, h.1.0), h.1.1),
        );
      }

  check_both-Vouched :
      (fields : CombinedFields) → Maintains (CheckingBoth c page) (check_both w c page fields)
  unfolding check_both accept_fee_source
  check_both-Vouched fields =
      Maintains-bind _ _ (accept_masters-Vouched fields.master_mnemonic page.items (λ _ m. m)) λ _.
        Maintains-bind-lift _ _
          λ key e. record { at = λ s h. (h.0, (h.1.0, fee_key-address w c page _ _ _ e)) }

  fee_stage : CombinedFields → Run (Unit {0})
  fee_stage fields =
      lift (fee_key w c page (mode_of fields.fee_checked) fields.fee_mnemonic fields.fee_privkey)
      >>= accept_fee_source

  fee_stage-fee :
      (fields : CombinedFields) (p : Result (Unit {0}) × Session)
      → (after p (λ _. fee_stage fields)).0 ≡ ok tt
      → (key : Bytes) × ((after p (λ _. fee_stage fields)).1.fee_source_key ≡ some key)
  unfolding fee_stage ◌>>=◌ lift accept_fee_source
  fee_stage-fee fields (err e, s) h = absurd (cc h)
  fee_stage-fee fields (ok _, s) h = go (fee_key w c page _ _ _) h
    where
      go :
          (r : Result Bytes)
          → (after (r, s) accept_fee_source).0 ≡ ok tt
          → (key : Bytes) × ((after (r, s) accept_fee_source).1.fee_source_key ≡ some key)
      go (ok key) h = (key, refl)
      go (err e) h = absurd (cc h)

  -- The two ways in which a click on the derive button of the combined mode may end.
  abbrev pub DerivedBoth : Session → Type 0
  DerivedBoth t =
      ((t.sign_disabled ≡ false)
        × BothVouched c page t
        × ((key : Bytes) × (t.fee_source_key ≡ some key)))
      ⊎ ((t.sign_disabled ≡ true) × (t.master_keys ≡ []) × (t.fee_source_key ≡ none))

  settle-DerivedBoth :
      (p : Result (Unit {0}) × Session)
      → CheckingBoth c page p.1
      → (p.0 ≡ ok tt → (key : Bytes) × (p.1.fee_source_key ≡ some key))
      → DerivedBoth (settle_combined w c page p)
  settle-DerivedBoth (ok tt, s) h k = inl (refl, h.1, k refl)
  settle-DerivedBoth (err e, s) h k = inr (h.0, refl, refl)

  -- A click on the derive button of the combined mode ends in one of two ways, whatever was typed.
  -- Every master key that is kept belongs to an item of the page and has its address, the key of
  -- the fee source is there and has that one's address, and the sign button is enabled; or no key
  -- of either kind is kept, and the sign button is disabled.
  pub handle_derive_combined-DerivedBoth :
      (fields : CombinedFields) (s : Session)
      → DerivedBoth (handle_derive_combined w c page fields s)
  unfolding handle_derive_combined check_both fee_stage ◌>>=◌
  handle_derive_combined-DerivedBoth fields s =
      let start = cleared_combined w c page s in
      settle-DerivedBoth (check_both w c page fields start)
        ((check_both-Vouched fields).at start (refl, (tt, tt)))
        (fee_stage-fee fields (accept_masters w c page fields.master_mnemonic page.items start))
