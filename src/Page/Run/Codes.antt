-- ===== src/Page/Run/Codes.antt =====
-- The one-time code of a run: it goes out with the first request, and with no other.
use ucollection.Base.{ℕ, Text, List, [], ◌∷◌, ◌++◌, none, some, ◌≡◌, refl, ◌⊎◌, inl, inr, All, ap}
use ucollection.Page.{Call, Request, Reply, Exchange, Session, Note}
use ucollection.Page.Run.{header, set_note, ◌>>=◌, post, Maintains, maintains_rules}

-- The code has not gone out yet, or the first of the requests since `base` carried it.
abbrev pub Uncoded : Exchange → Type 0
Uncoded e = e.0.totp_code ≡ none

abbrev pub FirstCoded : Text → List Exchange → List Exchange → Type 0
FirstCoded code base log =
    (later : List Exchange) × (first : Exchange) × (log ≡ later ++ first ∷ base)
    × (first.0.totp_code ≡ header (some code))
    × All Uncoded later

abbrev pub CodeOnce : Text → List Exchange → Session → Type 0
CodeOnce code base s =
    ((s.pending_totp_code ≡ some code) × (s.log ≡ base))
    ⊎ ((s.pending_totp_code ≡ none) × FirstCoded code base s.log)

module _ (code : Text) (base : List Exchange) where
  pub set_note-CodeOnce : (id : ℕ) (note : Note) → Maintains (CodeOnce code base) (set_note id note)
  unfolding set_note
  set_note-CodeOnce id note = record { at = λ s h. h }

  pub post-CodeOnce :
      (server : List Exchange → Request → Reply) (call : Call)
      → Maintains (CodeOnce code base) (post server call)
  unfolding post ◌>>=◌
  post-CodeOnce server call = record { at = λ s h. step s h }
    where
      sent : Session → Exchange
      sent s =
          let request : Request = record { call = call; totp_code = header s.pending_totp_code } in
          (request, server s.log request)

      step : (s : Session) → CodeOnce code base s → CodeOnce code base (post server call s).1
      step s (inl (pending, start)) =
          inr (refl, ([], sent s, ap (λ l. sent s ∷ l) start, ap header pending, tt))
      step s (inr (spent, (later, first, l, f, u))) =
          inr (refl, (sent s ∷ later, first, ap (λ l. sent s ∷ l) l, f, (ap header spent, u)))

pub ruleset code_rules = (maintains_rules, set_note-CodeOnce, post-CodeOnce)
