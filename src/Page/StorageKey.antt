-- ===== src/Page/StorageKey.antt =====
-- The keys of `storageKeyFor`: pages share a stored value only where they are about the same wallet.
use ucollection.Base.{
  ℕ, ◌≡◌, sym, ap, ◌∙◌, ◌⊎◌, inl, inr, Text, drop, true, false, Bool-cases, [], ◌∷◌, arith,
}
use ucollection.Base.Decimal.{to_string, value_from, value_from-to_string}
use ucollection.Page.{PageData, is_consolidation, storage_key_for}

initial : Text → ℕ
initial [] = 0
initial (c ∷ s) = c

module _ (p q : PageData) (same : storage_key_for p ≡ storage_key_for q) where
  wallets :
      is_consolidation p.type ≡ true
      → is_consolidation q.type ≡ true
      → p.master_wallet_id ≡ q.master_wallet_id
  unfolding storage_key_for
  wallets h k =
      let e : to_string p.master_wallet_id ≡ to_string q.master_wallet_id =
        ap (drop 14) (rw (h, k) at same) in
      sym (value_from-to_string p.master_wallet_id)
      ∙ ap (value_from 0) e
      ∙ value_from-to_string q.master_wallet_id

  sources :
      is_consolidation p.type ≡ false
      → is_consolidation q.type ≡ false
      → p.fee_source_address ≡ q.fee_source_address
  unfolding storage_key_for
  sources h k = ap (drop 10) (rw (h, k) at same)

  mixed : is_consolidation p.type ≡ true → is_consolidation q.type ≡ false → ⊥
  unfolding storage_key_for initial
  mixed h k = absurd (omega (arith, ap initial (rw (h, k) at same)))

  mixed' : is_consolidation p.type ≡ false → is_consolidation q.type ≡ true → ⊥
  unfolding storage_key_for initial
  mixed' h k = absurd (omega (arith, ap initial (rw (h, k) at same)))

  -- Two pages with the same storage key are both consolidations of one master wallet, or both have
  -- another mode and the same fee source.
  pub storage_key_for-injective :
      ((is_consolidation p.type ≡ true)
        × (is_consolidation q.type ≡ true)
        × (p.master_wallet_id ≡ q.master_wallet_id))
      ⊎ ((is_consolidation p.type ≡ false)
          × (is_consolidation q.type ≡ false)
          × (p.fee_source_address ≡ q.fee_source_address))
  storage_key_for-injective = elim (Bool-cases (is_consolidation p.type)) [
    | inl h ↦ elim (Bool-cases (is_consolidation q.type)) [
      | inl k ↦ inl (h, k, wallets h k)
      | inr k ↦ absurd (mixed h k)
    ]
    | inr h ↦ elim (Bool-cases (is_consolidation q.type)) [
      | inl k ↦ absurd (mixed' h k)
      | inr k ↦ inr (h, k, sources h k)
    ]
  ]
