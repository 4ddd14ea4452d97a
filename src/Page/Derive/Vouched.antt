-- ===== src/Page/Derive/Vouched.antt =====
-- The keys that are set while the input is checked have been compared with the page.
use ucollection.Base.{
  ℕ, ◌≡◌, refl, sym, ap, ◌∙◌, inl, inr, Text, List, [], ◌∷◌, true, false, some, nat_eq, All,
  Bool-cases,
}
use ucollection.Base.Result.{ok}
use ucollection.Crypto.{Bytes, Crypto}
use ucollection.Derive.{HdWallet, address_from_private_key}
use ucollection.Page.{PageData, Item, Session, get_key, is_consolidation}
use ucollection.Page.Run.{
  ◌>>=◌, set_note, Maintains, Maintains-bind, Maintains-bind-lift, Maintains-pure,
}
use ucollection.Page.Gate.Log.{Any}
use ucollection.Page.Single.{expected_address}
use ucollection.Page.Derive.Keys.{Fields}
use ucollection.Page.Derive.Keys.Laws.{item_key-address, fee_key-address}
use ucollection.Page.Derive.{accept, accept_items, accept_all, accept_fee, check_input}

module _ (c : Crypto) (page : PageData) where
  -- A key belongs to an item of the page: it stands under its id, and has the address that its
  -- signatures will be checked for.
  abbrev pub Vouched : (Item → Text) → ℕ × Bytes → Type 0
  Vouched address (id, key) =
      Any
        (λ (item : Item).
          (item.order_id ≡ id) × (address_from_private_key c key ≡ ok (address item)))
        page.items

  abbrev pub KeysVouched : Session → Type 0
  KeysVouched s = All (Vouched (expected_address page)) s.derived_keys

  -- While the input is being checked, the sign button is disabled.
  abbrev pub Checking : Session → Type 0
  Checking s = (s.sign_disabled ≡ true) × KeysVouched s

  abbrev pub HasKey : ℕ → List (ℕ × Bytes) → Type 0
  HasKey id keys = (key : Bytes) × (get_key id keys ≡ some key)

module _ {Node : Type 0} (w : HdWallet Node) (c : Crypto) (page : PageData) where
  accept-Vouched :
      (item : Item) (key : Bytes)
      → Vouched c page (expected_address page) (item.order_id, key)
      → Maintains (Checking c page) (accept item key)
  unfolding accept ◌>>=◌ set_note
  accept-Vouched item key v = record { at = λ s h. (h.0, (v, h.1)) }

  pub vouch :
      (address : Item → Text) (item : Item) (key : Bytes)
      → Any (λ (i : Item). i ≡ item) page.items
      → address_from_private_key c key ≡ ok (address item)
      → Vouched c page address (item.order_id, key)
  vouch address item key m e = go page.items m
    where
      go :
          (items : List Item)
          → Any (λ (i : Item). i ≡ item) items
          → Any
              (λ (i : Item).
                (i.order_id ≡ item.order_id) × (address_from_private_key c key ≡ ok (address i)))
              items
      go [] m = m
      go (i ∷ items) (inl same) =
          inl (ap (λ (j : Item). j.order_id) same, e ∙ ap (λ (j : Item). ok (address j)) (sym same))
      go (i ∷ items) (inr m) = inr (go items m)

  accept_items-Vouched :
      (mnemonic : Text) (items : List Item)
      → is_consolidation page.type ≡ true
      → ((item : Item)
          → Any (λ (i : Item). i ≡ item) items
          → Any (λ (i : Item). i ≡ item) page.items)
      → Maintains (Checking c page) (accept_items w c page mnemonic items)
  unfolding accept_items
  accept_items-Vouched mnemonic [] mode sub = Maintains-pure tt
  accept_items-Vouched mnemonic (item ∷ items) mode sub = Maintains-bind-lift _ _ λ key e.
      Maintains-bind _ _
        (accept-Vouched item key (
          vouch (expected_address page) item key (sub item (inl refl))
            (rw mode (item_key-address w c page mnemonic item e))))
        λ _. accept_items-Vouched mnemonic items mode (λ i m. sub i (inr m))

  accept_all-Vouched :
      (key : Bytes) (items : List Item)
      → is_consolidation page.type ≡ false
      → address_from_private_key c key ≡ ok page.fee_source_address
      → ((item : Item)
          → Any (λ (i : Item). i ≡ item) items
          → Any (λ (i : Item). i ≡ item) page.items)
      → Maintains (Checking c page) (accept_all w c page key items)
  unfolding accept_all
  accept_all-Vouched key [] mode e sub = Maintains-pure tt
  accept_all-Vouched key (item ∷ items) mode e sub =
      Maintains-bind _ _
        (accept-Vouched item key
          (vouch (expected_address page) item key (sub item (inl refl)) (rw mode e)))
        λ _. accept_all-Vouched key items mode e (λ i m. sub i (inr m))

  pub check_input-Vouched :
      (fields : Fields) → Maintains (Checking c page) (check_input w c page fields)
  unfolding check_input accept_fee
  check_input-Vouched fields = elim (Bool-cases (is_consolidation page.type)) [
    | inl mode ↦ rw mode (accept_items-Vouched fields.mnemonic page.items mode (λ _ m. m))
    | inr mode ↦ rw mode (
        Maintains-bind-lift _ _ λ key e.
          accept_all-Vouched key page.items mode (fee_key-address w c page _ _ _ e) (λ _ m. m))
  ]
