-- ===== src/MasterWallet/Laws.antt =====
-- The operator always sees the end of the xpub that would be sent.
use ucollection.Base.{
  ℕ, ◌≡◌, refl, ◌⊎◌, inl, inr, Text, codes, List, [], ◌∷◌, Bool, true, false, Option, none, some,
  ◌==◌, nat_eq, text_eq, if◌then◌else◌, is_empty, trim, slice_last, Bool-cases,
}
use ucollection.Base.Result.{Result, ok, err}
use ucollection.Derive.{HdWallet}
use ucollection.MasterWallet.{
  State, set_status, show_confirm, on_mode_change, confirm_derived, on_existing_derive, on_generate,
  split_words, backup_matches, on_verify_backup, verify_pending, submit_pending, show_error,
  backup_right, rejected, redirected, json, answered, on_submit, Event, mode_changed,
  existing_derived, generated, backup_verified, submitted, answer_came, step, run,
}

-- The confirmation box is hidden and no xpub is pending, or it shows the end of the pending xpub.
pub record IsShown (s : State) : Type 0 where
  pub either :
      ((s.pending_xpub ≡ none) × (s.confirm_hidden ≡ true))
      ⊎ ((xpub : Text) × (s.pending_xpub ≡ some xpub)
          × (s.xpub_tail ≡ slice_last 4 xpub)
          × (s.confirm_hidden ≡ false))

confirm_derived-IsShown :
    (r : Result Text) (after : State → State) (s : State)
    → ((t : State) → IsShown t → IsShown (after t))
    → IsShown s
    → IsShown (confirm_derived r after s)
unfolding confirm_derived
confirm_derived-IsShown (ok xpub) after s k h =
    k (show_confirm xpub s) (record { either = inr (xpub, refl, refl, refl) })
confirm_derived-IsShown (err e) after s k h = record { either = h.either }

submit_pending-IsShown :
    (typed : Text) (agreed : Bool) (o : Option Text) (s : State)
    → IsShown s
    → IsShown (submit_pending typed agreed o s)
submit_pending-IsShown typed agreed none s h = record { either = h.either }
submit_pending-IsShown typed agreed (some xpub) s h = elim (Bool-cases (is_empty xpub)) [
  | inl empty ↦ rw empty (record { either = h.either })
  | inr full ↦ elim (Bool-cases (is_empty (trim typed))) [
    | inl missing ↦ rw (full, missing) (record { either = h.either })
    | inr given ↦ elim (Bool-cases agreed) [
      | inl so ↦ rw (full, given, so) (record { either = h.either })
      | inr other ↦ rw (full, given, other) h
    ]
  ]
]

show_error-IsShown :
    (status : ℕ) (error : Option Text) (s : State) → IsShown s → IsShown (show_error status error s)
show_error-IsShown status none s h = record { either = h.either }
show_error-IsShown status (some text) s h = elim (Bool-cases (text == codes "duplicate")) [
  | inl so ↦ rw so (record { either = h.either })
  | inr other ↦ rw other (record { either = h.either })
]

module _ {Node : Type 0} (w : HdWallet Node) (to_lower_case : Text → Text) where
  verify_pending-IsShown :
      (inputs : List (ℕ × Text)) (o : Option Text) (s : State)
      → IsShown s
      → IsShown (verify_pending to_lower_case w inputs o s)
  verify_pending-IsShown inputs none s h = record { either = h.either }
  verify_pending-IsShown inputs (some mnemonic) s h = elim (Bool-cases (is_empty mnemonic)) [
    | inl empty ↦ rw empty (record { either = h.either })
    | inr full ↦ elim (Bool-cases (backup_matches to_lower_case (split_words mnemonic) inputs)) [
      | inl right ↦
          rw (full, right)
            (confirm_derived-IsShown _ (set_status backup_right) s
              (λ t k. record { either = k.either }) h)
      | inr wrong ↦ rw (full, wrong) (record { either = h.either })
    ]
  ]

  step-IsShown : (event : Event) (s : State) → IsShown s → IsShown (step w to_lower_case event s)
  unfolding step on_mode_change on_existing_derive on_generate on_verify_backup on_submit answered
  step-IsShown (mode_changed is_existing) s h = record { either = inl (refl, refl) }
  step-IsShown (existing_derived typed) s h = elim (Bool-cases (w.validate_mnemonic (trim typed))) [
    | inl valid ↦ rw valid (confirm_derived-IsShown _ (λ t. t) s (λ t k. k) h)
    | inr invalid ↦ rw invalid (record { either = h.either })
  ]
  step-IsShown (generated mnemonic positions) s h = record { either = inl (refl, refl) }
  step-IsShown (backup_verified inputs) s h =
      verify_pending-IsShown inputs s.pending_generated_mnemonic s h
  step-IsShown (submitted typed agreed) s h = submit_pending-IsShown typed agreed s.pending_xpub s h
  step-IsShown (answer_came (rejected e)) s h = record { either = h.either }
  step-IsShown (answer_came redirected) s h = record { either = h.either }
  step-IsShown (answer_came (json status okay error)) s h =
      elim (Bool-cases (if status == 200 then okay else false)) [
        | inl gone ↦ rw gone (record { either = h.either })
        | inr stays ↦ rw stays (show_error-IsShown status error s h)
      ]

  -- Whatever happens on the master wallet page, in any order, the confirmation box is hidden and no
  -- xpub is pending, or it shows the last four characters of the xpub that a submission would send,
  -- if this was so before.
  pub run-IsShown :
      (events : List Event) (s : State) → IsShown s → IsShown (run w to_lower_case events s)
  unfolding run
  run-IsShown [] s h = h
  run-IsShown (event ∷ events) s h = run-IsShown events _ (step-IsShown event s h)
