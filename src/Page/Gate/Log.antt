-- ===== src/Page/Gate/Log.antt =====
-- The exchanges of a session whose broadcasts have all passed the gates, and the steps of the page
-- that keep it so.
use ucollection.Base.{ℕ, Text, List, [], ◌∷◌, Option, ◌≡◌, ◌⊎◌, All}
use ucollection.Crypto.{Crypto}
use ucollection.Page.{
  PageData, Item, Flow, consolidation_flow, fee_topup_flow, Call, prepare, broadcast,
  transaction_info, Request, Reply, Exchange, Session, Note, Asset,
}
use ucollection.Page.Run.{set_note, ◌>>=◌, post, Maintains, maintains_rules}
use ucollection.Page.Gate.Laws.{Passed}

abbrev pub Any : {A : Type 0} → (A → Type 0) → List A → Type 0
Any P [] = ⊥
Any P (x ∷ xs) = P x ⊎ Any P xs

-- The addresses that a transaction may have been signed for: that of an item of the page where USDT
-- is collected, and the fee source where TRX is sent.
abbrev pub IsExpected : PageData → Flow → Text → Type 0
IsExpected page consolidation_flow address =
    Any (λ (item : Item). item.address ≡ address) page.items
IsExpected page fee_topup_flow address = page.fee_source_address ≡ address

-- Any request but the broadcast of what has not passed the gates.
abbrev pub IsGated : Crypto → PageData → Call → Type 0
IsGated c page (prepare flow batch order amount) = Unit
IsGated c page (transaction_info tx kind) = Unit
IsGated c page (broadcast flow item_id sent) =
    (address : Text) × IsExpected page flow address × Passed c address sent

abbrev pub LogIsGated : Crypto → PageData → Session → Type 0
LogIsGated c page s = All (λ (e : Exchange). IsGated c page e.0.call) s.log

module _ (c : Crypto) (page : PageData) where
  pub set_note-Gated : (id : ℕ) (note : Note) → Maintains (LogIsGated c page) (set_note id note)
  unfolding set_note
  set_note-Gated id note = record { at = λ s h. h }

  pub post-Gated :
      (server : List Exchange → Request → Reply) (call : Call)
      → IsGated c page call
      → Maintains (LogIsGated c page) (post server call)
  unfolding post ◌>>=◌
  post-Gated server call g = record { at = λ s h. (g, h) }

  -- What is no broadcast needs no gate.
  pub post_prepare-Gated :
      (server : List Exchange → Request → Reply) (flow : Flow) (batch order : ℕ) (sun : Option ℕ)
      → Maintains (LogIsGated c page) (post server (prepare flow batch order sun))
  post_prepare-Gated server flow batch order sun =
      post-Gated server (prepare flow batch order sun) tt

  pub post_info-Gated :
      (server : List Exchange → Request → Reply) (tx_id : Option Text) (kind : Asset)
      → Maintains (LogIsGated c page) (post server (transaction_info tx_id kind))
  post_info-Gated server tx_id kind = post-Gated server (transaction_info tx_id kind) tt

pub ruleset gated_rules =
    (maintains_rules, set_note-Gated, post_prepare-Gated, post_info-Gated, post-Gated)
