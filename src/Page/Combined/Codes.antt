-- ===== src/Page/Combined/Codes.antt =====
-- The code that the operator types for a combined run is sent once.
use ucollection.Base.{Text, List, [], ◌∷◌, ◌≡◌, refl, ◌⊎◌, inl, inr, Bool-cases, is_empty, trim}
use ucollection.Base.Result.{Result, ok, err}
use ucollection.Crypto.{Crypto}
use ucollection.Page.{PageData, Item, Request, Reply, Exchange, Session}
use ucollection.Page.Run.{Maintains}
use ucollection.Page.Run.Codes.{FirstCoded, CodeOnce, set_note-CodeOnce, post-CodeOnce}
use ucollection.Page.Gate.Log.{Any}
use ucollection.Page.Combined.Invariant.{Among, pending_among-sub, combined_steps-Maintains}
use ucollection.Page.Combined.{
  fee_source_key, master_key, wipe_fee_source_key, sleep, combined_pending_items, combined_steps,
  finished, run_pending, lacks_keys, started, run_combined_flow,
}

module _ (c : Crypto) (server : List Exchange → Request → Reply) (page : PageData) where
  module _ (code : Text) (base : List Exchange) where
    steps :
        (first : Item) (rest : List Item)
        → ((item : Item) → Any (λ (i : Item). i ≡ item) (first ∷ rest) → Among c page item)
        → Maintains (CodeOnce code base) (combined_steps c server page first rest)
    unfolding fee_source_key master_key wipe_fee_source_key sleep
    steps =
        combined_steps-Maintains c server page (set_note-CodeOnce code base)
          (λ call _. post-CodeOnce code base server call) (record { at = λ s h. h })
          (λ item. record { at = λ s h. h }) (record { at = λ s h. h })
          (λ ms. record { at = λ s h. h })

    finished-CodeOnce :
        (p : Result (Unit {0}) × Session)
        → CodeOnce code base p.1
        → CodeOnce code base (finished c server page p)
    finished-CodeOnce (ok _, s) h = h
    finished-CodeOnce (err e, s) h = h

    run_pending-CodeOnce :
        (items : List Item) (s : Session)
        → ((item : Item) → Any (λ (i : Item). i ≡ item) items → Among c page item)
        → CodeOnce code base s
        → CodeOnce code base (run_pending c server page items s)
    run_pending-CodeOnce [] s sub h = h
    run_pending-CodeOnce (first ∷ rest) s sub h =
        finished-CodeOnce (combined_steps c server page first rest s)
          ((steps first rest sub).at s h)

    log_part : (u : Session) → CodeOnce code base u → (u.log ≡ base) ⊎ FirstCoded code base u.log
    log_part u (inl (_, e)) = inl e
    log_part u (inr (_, f)) = inr f

  -- A click on the start button of the combined mode sends nothing, or sends the trimmed code with
  -- the first of its requests and no code with the later ones.
  pub run_combined_flow_code :
      (totp : Text) (s : Session)
      → let t = run_combined_flow c server page totp s in
        (t.log ≡ s.log) ⊎ FirstCoded (trim totp) s.log t.log
  unfolding run_combined_flow
  run_combined_flow_code totp s = elim (Bool-cases (is_empty (trim totp))) [
    | inl missing ↦ inl (rw missing)
    | inr given ↦ elim (Bool-cases (lacks_keys c server page s)) [
      | inl lacking ↦ inl (rw (given, lacking))
      | inr ready ↦
          let start : CodeOnce (trim totp) s.log (started c server page totp s) =
            inl (refl, refl) in
          let done =
            run_pending c server page (combined_pending_items page)
              (started c server page totp s) in
          rw (given, ready)
            (log_part (trim totp) s.log done (
              run_pending-CodeOnce (trim totp) s.log (combined_pending_items page) _
                (pending_among-sub c page page.items) start))
    ]
  ]
