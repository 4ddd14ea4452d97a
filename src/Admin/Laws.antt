-- ===== src/Admin/Laws.antt =====
-- What is deleted and what is copied, and what the page says about it.
use ucollection.Base.{
  ℕ, ◌≡◌, refl, ◌⊎◌, inl, inr, Text, codes, List, [], ◌∷◌, ◌++◌, true, false, Option, none, some,
  is_empty, Bool-cases, arith,
}
use ucollection.Base.Decimal.{to_string}
use ucollection.Admin.{
  Reply, rejected, redirected, response, Effect, delete_request, alert_code, alert_failed, reload,
  delete_address_book_entry, delete_fee_source_book_entry, delete_answered, fee_source_answered,
}

-- What follows a request: the page is reloaded, the code is said to be wrong, or the deletion to have
-- failed.
abbrev pub Ends : Reply → Effect → Type 0
Ends reply last =
    ((reply ≡ response true) × (last ≡ reload))
    ⊎ (((reply ≡ redirected) × (last ≡ alert_code))
        ⊎ (((reply ≡ rejected) ⊎ (reply ≡ response false)) × (last ≡ alert_failed)))

-- A deletion does nothing, if no code is typed; or it sends one request with the code and then says how
-- it ended, and reloads the page only if the server has done it.
abbrev pub Deletes : Text → Option Text → Reply → List Effect → Type 0
Deletes url totp_code reply effects =
    (((code : Text) → totp_code ≡ some code → is_empty code ≡ true) × (effects ≡ []))
    ⊎ ((code : Text) × (last : Effect) × (totp_code ≡ some code)
        × (is_empty code ≡ false)
        × (effects ≡ delete_request url code ∷ last ∷ [])
        × Ends reply last)

answered-Ends : (reply : Reply) → Ends reply (delete_answered reply)
answered-Ends rejected = inr (inr (inl refl, refl))
answered-Ends redirected = inr (inl (refl, refl))
answered-Ends (response true) = inl (refl, refl)
answered-Ends (response false) = inr (inr (inr refl, refl))

fee_source_answered-Ends : (reply : Reply) → Ends reply (fee_source_answered reply)
fee_source_answered-Ends rejected = inr (inr (inl refl, refl))
fee_source_answered-Ends redirected = inr (inl (refl, refl))
fee_source_answered-Ends (response true) = inl (refl, refl)
fee_source_answered-Ends (response false) = inr (inr (inr refl, refl))

pub delete_address_book_entry-Deletes :
    (id : ℕ) (totp_code : Option Text) (reply : Reply)
    → Deletes
        (codes "/admin/consolidation/address-book/" ++ to_string id)
        totp_code
        reply
        (delete_address_book_entry id totp_code reply)
unfolding delete_address_book_entry
delete_address_book_entry-Deletes id none reply = inl ((λ code e. absurd (cc e)), refl)
delete_address_book_entry-Deletes id (some code) reply = elim (Bool-cases (is_empty code)) [
  | inl missing ↦ inl ((λ typed e. ground arith), rw missing refl)
  | inr typed ↦ inr (code, delete_answered reply, refl, typed, rw typed refl, answered-Ends reply)
]

delete_fee_source_book_entry-Deletes :
    (id : ℕ) (totp_code : Option Text) (reply : Reply)
    → Deletes
        (codes "/admin/consolidation/fee-source-book/" ++ to_string id)
        totp_code
        reply
        (delete_fee_source_book_entry id totp_code reply)
unfolding delete_fee_source_book_entry
delete_fee_source_book_entry-Deletes id none reply = inl ((λ code e. absurd (cc e)), refl)
delete_fee_source_book_entry-Deletes id (some code) reply = elim (Bool-cases (is_empty code)) [
  | inl missing ↦ inl ((λ typed e. ground arith), rw missing refl)
  | inr typed ↦
      inr (
        code,
        fee_source_answered reply,
        refl,
        typed,
        rw typed refl,
        fee_source_answered-Ends reply,
      )
]

-- A deletion in either address book does nothing if no code is typed. Otherwise it sends one
-- request, to the address of the entry and with the code, and then either shows an alert or reloads
-- the page, which it does exactly if the answer was neither a failure nor a redirection and was in
-- order.
pub deletions :
    (id : ℕ) (totp_code : Option Text) (reply : Reply)
    → Deletes
        (codes "/admin/consolidation/address-book/" ++ to_string id)
        totp_code
        reply
        (delete_address_book_entry id totp_code reply)
      × Deletes
          (codes "/admin/consolidation/fee-source-book/" ++ to_string id)
          totp_code
          reply
          (delete_fee_source_book_entry id totp_code reply)
deletions id totp_code reply = (
  delete_address_book_entry-Deletes id totp_code reply,
  delete_fee_source_book_entry-Deletes id totp_code reply,
)
