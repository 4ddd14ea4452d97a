-- ===== src/Page/Derive/Quiet.antt =====
-- The derive buttons ask the server nothing: they leave the log of the exchanges alone.
use ucollection.Base.{Text, List, [], ◌∷◌, ◌≡◌, refl}
use ucollection.Base.Result.{Result, ok, err}
use ucollection.Crypto.{Bytes, Crypto}
use ucollection.Derive.{HdWallet}
use ucollection.Storage.{Subtle, Db}
use ucollection.Page.{PageData, Item, Exchange, Session, is_consolidation}
use ucollection.Page.Run.{
  Maintains, Maintains-bind, Maintains-if, Maintains-lift, Maintains-pure, ◌>>=◌, set_note,
}
use ucollection.Page.Derive.Keys.{Fields, CombinedFields, item_key}
use ucollection.Page.Derive.{
  accept, accept_master, accept_fee_source, Device, accept_items, accept_all, accept_fee,
  check_input, settle, handle_derive, accept_masters, check_both, settle_combined,
  handle_derive_combined,
}

module _ {Node : Type 0} (w : HdWallet Node) (c : Crypto) (page : PageData)
    (base : List Exchange) where
  abbrev Quiet : Session → Type 0
  Quiet s = s.log ≡ base

  accept-Quiet : (item : Item) (key : Bytes) → Maintains Quiet (accept item key)
  unfolding accept set_note ◌>>=◌
  accept-Quiet item key = record { at = λ s h. h }

  accept_items-Quiet :
      (mnemonic : Text) (items : List Item) → Maintains Quiet (accept_items w c page mnemonic items)
  unfolding accept_items
  accept_items-Quiet mnemonic [] = Maintains-pure tt
  accept_items-Quiet mnemonic (item ∷ items) =
      Maintains-bind _ _ (Maintains-lift (item_key w c page mnemonic item))
        λ key. Maintains-bind _ _ (accept-Quiet item key) λ _. accept_items-Quiet mnemonic items

  accept_all-Quiet :
      (key : Bytes) (items : List Item) → Maintains Quiet (accept_all w c page key items)
  unfolding accept_all
  accept_all-Quiet key [] = Maintains-pure tt
  accept_all-Quiet key (item ∷ items) =
      Maintains-bind _ _ (accept-Quiet item key) λ _. accept_all-Quiet key items

  check_input-Quiet : (fields : Fields) → Maintains Quiet (check_input w c page fields)
  unfolding check_input accept_fee
  check_input-Quiet fields =
      Maintains-if (is_consolidation page.type) _ _
        (λ _. accept_items-Quiet fields.mnemonic page.items)
        (λ _. Maintains-bind _ _ (Maintains-lift _) λ key. accept_all-Quiet key page.items)

  settle-Quiet :
      {Key : Type 0} (v : Subtle Key) (fields : Fields) (d : Device)
      (p : Result (Unit {0}) × Session) (db : Db)
      → Quiet p.1
      → Quiet (settle w c page v fields d p db).0
  settle-Quiet v fields d (ok u, s) db h = h
  settle-Quiet v fields d (err e, s) db h = h

  accept_masters-Quiet :
      (mnemonic : Text) (items : List Item)
      → Maintains Quiet (accept_masters w c page mnemonic items)
  unfolding accept_masters accept_master
  accept_masters-Quiet mnemonic [] = Maintains-pure tt
  accept_masters-Quiet mnemonic (item ∷ items) =
      Maintains-bind _ _ (Maintains-lift (item_key w c page mnemonic item)) λ key.
        Maintains-bind _ _ (record { at = λ s h. h }) λ _. accept_masters-Quiet mnemonic items

  check_both-Quiet : (fields : CombinedFields) → Maintains Quiet (check_both w c page fields)
  unfolding check_both accept_fee_source
  check_both-Quiet fields =
      Maintains-bind _ _ (accept_masters-Quiet fields.master_mnemonic page.items)
        λ _. Maintains-bind _ _ (Maintains-lift _) λ key. record { at = λ s h. h }

  settle_combined-Quiet :
      (p : Result (Unit {0}) × Session) → Quiet p.1 → Quiet (settle_combined w c page p)
  settle_combined-Quiet (ok u, s) h = h
  settle_combined-Quiet (err e, s) h = h

module _ {Node : Type 0} (w : HdWallet Node) (c : Crypto) (page : PageData) where
  pub log-handle_derive :
      {Key : Type 0} (v : Subtle Key) (fields : Fields) (d : Device) (s : Session) (db : Db)
      → (handle_derive w c page v fields d s db).0.log ≡ s.log
  unfolding handle_derive
  log-handle_derive v fields d s db =
      settle-Quiet w c page s.log v fields d _ db
        ((check_input-Quiet w c page s.log fields).at _ refl)

  pub log-handle_derive_combined :
      (fields : CombinedFields) (s : Session)
      → (handle_derive_combined w c page fields s).log ≡ s.log
  unfolding handle_derive_combined
  log-handle_derive_combined fields s =
      settle_combined-Quiet w c page s.log _ ((check_both-Quiet w c page s.log fields).at _ refl)
