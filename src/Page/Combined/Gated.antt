-- ===== src/Page/Combined/Gated.antt =====
-- The broadcasts of the combined flow have passed the gates.
use ucollection.Base.{Text, List, [], ◌∷◌, ◌≡◌, inl, inr, Bool-cases, is_empty, trim}
use ucollection.Base.Result.{Result, ok, err}
use ucollection.Crypto.{Crypto}
use ucollection.Page.{PageData, Item, Request, Reply, Exchange, Session}
use ucollection.Page.Run.{Maintains}
use ucollection.Page.Gate.Log.{Any, LogIsGated, set_note-Gated, post-Gated}
use ucollection.Page.Combined.Invariant.{Among, pending_among-sub, combined_steps-Maintains}
use ucollection.Page.Combined.{
  combined_pending_items, fee_source_key, master_key, wipe_fee_source_key, sleep, combined_steps,
  finished, run_pending, lacks_keys, started, run_combined_flow,
}

module _ (c : Crypto) (server : List Exchange → Request → Reply) (page : PageData) where
  steps :
      (first : Item) (rest : List Item)
      → ((item : Item) → Any (λ (i : Item). i ≡ item) (first ∷ rest) → Among c page item)
      → Maintains (LogIsGated c page) (combined_steps c server page first rest)
  unfolding fee_source_key master_key wipe_fee_source_key sleep
  steps =
      combined_steps-Maintains c server page (set_note-Gated c page) (post-Gated c page server)
        (record { at = λ s h. h }) (λ item. record { at = λ s h. h }) (record { at = λ s h. h })
        (λ ms. record { at = λ s h. h })

  finished-Gated :
      (p : Result (Unit {0}) × Session)
      → LogIsGated c page p.1
      → LogIsGated c page (finished c server page p)
  finished-Gated (ok _, s) h = h
  finished-Gated (err e, s) h = h

  run_pending-Gated :
      (items : List Item) (s : Session)
      → ((item : Item) → Any (λ (i : Item). i ≡ item) items → Among c page item)
      → LogIsGated c page s
      → LogIsGated c page (run_pending c server page items s)
  run_pending-Gated [] s sub h = h
  run_pending-Gated (first ∷ rest) s sub h =
      finished-Gated (combined_steps c server page first rest s) ((steps first rest sub).at s h)

  -- If all broadcasts in the log so far have passed both gates, then so have all after a click on
  -- the start button of the combined mode, whatever the server answers and the code field holds,
  -- for the addresses of the items in a consolidation and of the fee source in a top-up.
  pub run_combined_flow-Gated :
      (totp : Text) (s : Session)
      → LogIsGated c page s
      → LogIsGated c page (run_combined_flow c server page totp s)
  unfolding run_combined_flow
  run_combined_flow-Gated totp s h = elim (Bool-cases (is_empty (trim totp))) [
    | inl missing ↦ rw missing h
    | inr given ↦ elim (Bool-cases (lacks_keys c server page s)) [
      | inl lacking ↦ rw (given, lacking) h
      | inr ready ↦
          rw (given, ready)
            (run_pending-Gated (combined_pending_items page) (started c server page totp s)
              (pending_among-sub c page page.items) h)
    ]
  ]
