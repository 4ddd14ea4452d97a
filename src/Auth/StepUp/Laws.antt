-- ===== src/Auth/StepUp/Laws.antt =====
-- What a request that is let through has shown.
use ucollection.Base.{
  ℕ, suc, ◌+◌, ◌-◌, ◌/◌, ◌≤◌, ◌<◌, ◌≡◌, ◌≢◌, refl, sym, ap, ◌∙◌, ◌⊎◌, inl, inr, Text, List, [], ◌∷◌,
  Bool, All, true, false, ◌&&◌, Option, none, some, text_eq, text_beq_iff, if◌then◌else◌, is_empty,
  codes, Bool-cases, Option-cases, arith,
}
use ucollection.Auth.{Session, Tables, find_session}
use ucollection.Auth.Limiter.{allow}
use ucollection.Auth.StepUp.{
  Statement, increment_attempt, load_account, Request, served, refused, since_below, is_replay,
  matches, first_match, verify_totp_code, complete_reverify, totp_failure, counted, finished,
  with_step, with_secret, require_totp_code, totp_code_from_request, batch_step_up_window,
  reverify_redirect_grace,
}

abbrev pub IsNew : Option ℕ → ℕ → Type 0
IsNew none step = Unit
IsNew (some last) step = last < step

-- The code is the one of a step, at most one step off.
abbrev pub IsCode : (Text → ℕ → Option Text) → (secret code : Text) → (now step : ℕ) → Type 0
IsCode generate secret code now step =
    (generate secret step ≡ some code) × (step ≤ now / 30 + 1) × (now / 30 ≤ step + 1)

module _ (generate : Text → ℕ → Option Text) (secret code : Text) where
  matches-some : (r : Option Text) → matches generate code r ≡ true → r ≡ some code
  matches-some none h = cc
  matches-some (some want) h = ap some ((text_beq_iff want code).0 h)

  first_match-some :
      (now : ℕ) (steps : List ℕ) (step : ℕ)
      → All (λ s. (s ≤ now / 30 + 1) × (now / 30 ≤ s + 1)) steps
      → first_match generate secret code steps ≡ some step
      → IsCode generate secret code now step
  unfolding first_match
  first_match-some now [] step _ e = cc
  first_match-some now (s ∷ steps) step ((low, high), rest) e =
      elim (Bool-cases (matches generate code (generate secret s))) [
        | inl hit ↦
            let q : s ≡ step = ground (arith, e, hit) in
            (ap (generate secret) (sym q) ∙ matches-some _ hit, omega (arith, q), omega (arith, q))
        | inr miss ↦ first_match-some now steps step rest (ground (arith, e, miss))
      ]

  verify_totp_code-some :
      (now step : ℕ)
      → verify_totp_code generate secret code now ≡ some step
      → IsCode generate secret code now step
  verify_totp_code-some now step e = elim (Bool-cases (is_empty code)) [
    | inl none_given ↦ absurd (cc (e, none_given))
    | inr given ↦
        first_match-some now ((now / 30 - 1) ∷ (now / 30) ∷ suc (now / 30) ∷ []) step
          (
            (omega arith, omega arith),
            ((omega arith, omega arith), ((omega arith, omega arith), tt)),
          )
          (ground (arith, e, given))
  ]

pub not_replay-IsNew : (last : Option ℕ) (step : ℕ) → is_replay last step ≡ false → IsNew last step
not_replay-IsNew none step h = tt
not_replay-IsNew (some last) step h = ground arith

-- A code that was let through: it is new, and its step is kept.
abbrev pub Accepted :
    (now : ℕ) (generate : Text → ℕ → Option Text) (code : Text) → Tables → Tables → Type 0
Accepted now generate code t after =
    (secret : Text) × (t.totp_secret ≡ some secret)
    × ((step : ℕ) × IsCode generate secret code now step
        × IsNew t.last_totp_step step
        × (after.last_totp_step ≡ some step))

-- The last code was entered less than a window ago.
abbrev pub Within : (window now : ℕ) → Option ℕ → Type 0
Within window now entered = (at : ℕ) × (entered ≡ some at) × (now < at + window)

since_below-Within :
    (window now : ℕ) (entered : Option ℕ)
    → since_below now entered window ≡ true
    → Within window now entered
since_below-Within window now none e = cc
since_below-Within window now (some at) e = (at, refl, ground arith)

passed :
    (a b : Bool)
    → (if a && b then served else refused (codes "missing")) ≡ served
    → (a ≡ true) × (b ≡ true)
passed a b e = ground (arith, e)

module _ (works : Statement → Bool) (now : ℕ) where
  counted-not_served :
      (id : ℕ) (o : Option Session) (t : Tables) → (counted works now id o t).0 ≢ served
  counted-not_served id none t e = cc e
  counted-not_served id (some s) t e = ground (arith, e)

  pub totp_failure-not_served :
      (id : ℕ) (ip : Text) (t : Tables) → (totp_failure works now id ip t).0 ≢ served
  unfolding totp_failure
  totp_failure-not_served id ip t e = elim (Bool-cases (works increment_attempt)) [
    | inl counts ↦ counted-not_served id (find_session id t.sessions) _ (rw counts at e)
    | inr fails ↦ absurd (cc (rw fails at e))
  ]

  complete_reverify-step :
      (id step : ℕ) (t : Tables)
      → (finished (complete_reverify works now id step t)).0 ≡ served
      → (finished (complete_reverify works now id step t)).1.last_totp_step ≡ some step
  unfolding complete_reverify
  complete_reverify-step id step t e = ground (arith, e)

  with_step-Accepted :
      (generate : Text → ℕ → Option Text) (sess : Session) (ip secret code : Text) (t : Tables)
      → t.totp_secret ≡ some secret
      → (with_step works now sess ip (verify_totp_code generate secret code now) t).0 ≡ served
      → Accepted now generate code t
          (with_step works now sess ip (verify_totp_code generate secret code now) t).1
  unfolding with_step
  with_step-Accepted generate sess ip secret code t known e =
      elim (Option-cases (verify_totp_code generate secret code now)) [
        | inl wrong ↦ absurd (totp_failure-not_served sess.id ip t (rw wrong at e))
        | inr (step, right) ↦ elim (Bool-cases (is_replay t.last_totp_step step)) [
          | inl replay ↦ absurd (cc (rw (right, replay) at e))
          | inr new ↦
              rw (right, new)
                (
                  secret,
                  known,
                  (
                    step,
                    verify_totp_code-some generate secret code now step right,
                    not_replay-IsNew t.last_totp_step step new,
                    complete_reverify-step sess.id step t (rw (right, new) at e),
                  ),
                )
        ]
      ]

  with_secret-Accepted :
      (generate : Text → ℕ → Option Text) (sess : Session) (ip code : Text) (o : Option Text)
      (t : Tables)
      → t.totp_secret ≡ o
      → (with_secret works now generate sess ip code o t).0 ≡ served
      → ((allow ip now t.hits).0 ≡ true)
        × Accepted now generate code t (with_secret works now generate sess ip code o t).1
  unfolding with_secret
  with_secret-Accepted generate sess ip code none t known e = absurd (cc e)
  with_secret-Accepted generate sess ip code (some secret) t known e =
      elim (Bool-cases (allow ip now t.hits).0) [
        | inr denied ↦ absurd (cc (rw denied at e))
        | inl allowed ↦
            let asked = record t { hits = (allow ip now t.hits).1 } in
            let a = with_step-Accepted generate sess ip secret code asked known (rw allowed at e) in
            rw allowed (refl, a)
      ]

  -- A request with a session that the gate lets through is a GET less than 30 seconds after the
  -- session's last code, or a request without a code on a route with a batch window less than half
  -- an hour after it, or it carries a code of the account's secret, at most one time step off,
  -- whose step is later than the last one used and is kept as that, from an address that the
  -- limiter allows.
  pub require_totp_code-Authorised :
      (generate : Text → ℕ → Option Text) (allow_recent : Bool) (sess : Session) (r : Request)
      (t : Tables)
      → (require_totp_code works now generate allow_recent (some sess) r t).0 ≡ served
      → ((r.is_get ≡ true) × Within reverify_redirect_grace now sess.last_step_up_verified_at)
        ⊎ ((r.is_get ≡ false)
            × (is_empty (totp_code_from_request r) ≡ true)
            × (allow_recent ≡ true)
            × Within batch_step_up_window now sess.last_step_up_verified_at)
        ⊎ ((r.is_get ≡ false)
            × ((allow r.ip now t.hits).0 ≡ true)
            × Accepted now generate
                (totp_code_from_request r)
                t
                (require_totp_code works now generate allow_recent (some sess) r t).1)
  unfolding require_totp_code
  require_totp_code-Authorised generate allow_recent sess r t e = elim (Bool-cases r.is_get) [
    | inl get ↦ inl (get, since_below-Within _ _ _ (ground (arith, e, get)))
    | inr post ↦ elim (Bool-cases (is_empty (totp_code_from_request r))) [
      | inl no_code ↦
          let (recent, within) = passed allow_recent _ (rw (post, no_code) at e) in
          inr (inl (post, no_code, recent, since_below-Within _ _ _ within))
      | inr has_code ↦ elim (Bool-cases (works load_account)) [
        | inr fails ↦ absurd (cc (rw (post, has_code, fails) at e))
        | inl loads ↦
            let (allowed, a) =
              with_secret-Accepted generate sess r.ip (totp_code_from_request r) t.totp_secret t
                refl (rw (post, has_code, loads) at e) in
            rw (post, has_code, loads) (inr (inr (refl, allowed, a)))
      ]
    ]
  ]
