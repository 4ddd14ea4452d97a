-- ===== src/Auth/StepUp/Replay.antt =====
-- A one-time code lets one request through: the steps that were used only grow.
use ucollection.Base.{
  ℕ, ◌≤◌, ◌<◌, ◌≡◌, refl, inl, inr, Text, Bool, true, false, Option, none, some, is_empty,
  Bool-cases, arith,
}
use ucollection.Auth.{Session, Tables, find_session}
use ucollection.Auth.Limiter.{allow}
use ucollection.Auth.StepUp.{
  Statement, increment_attempt, load_account, load_session, touch, drop_session, update_step,
  mark_verified, reset_attempt, Request, is_replay, verify_totp_code, complete_reverify,
  totp_failure, counted, finished, with_step, with_secret, require_totp_code,
  totp_code_from_request, looked_up, is_valid, tron_proxy, change_session, served,
}
use ucollection.Auth.StepUp.Laws.{IsNew, IsCode, not_replay-IsNew, require_totp_code-Authorised}

-- The step that is kept has not gone back.
abbrev pub AtLeast : Option ℕ → Option ℕ → Type 0
AtLeast none after = Unit
AtLeast (some old) none = ⊥
AtLeast (some old) (some new) = old ≤ new

AtLeast-refl : (o : Option ℕ) → AtLeast o o
AtLeast-refl none = tt
AtLeast-refl (some n) = omega arith

AtLeast-trans : (a b c : Option ℕ) → AtLeast a b → AtLeast b c → AtLeast a c
AtLeast-trans none b c h k = tt
AtLeast-trans (some x) none c h k = absurd h
AtLeast-trans (some x) (some y) none h k = absurd k
AtLeast-trans (some x) (some y) (some z) h k = omega (arith, h, k)

IsNew-AtLeast : (o : Option ℕ) (step : ℕ) → IsNew o step → AtLeast o (some step)
IsNew-AtLeast none step h = tt
IsNew-AtLeast (some old) step h = omega (arith, h)

module _ (works : Statement → Bool) (now : ℕ) where
  counted-step :
      (id : ℕ) (o : Option Session) (t : Tables)
      → (counted works now id o t).1.last_totp_step ≡ t.last_totp_step
  counted-step id none t = refl
  counted-step id (some s) t = ground arith

  totp_failure-step :
      (id : ℕ) (ip : Text) (t : Tables)
      → (totp_failure works now id ip t).1.last_totp_step ≡ t.last_totp_step
  unfolding totp_failure
  totp_failure-step id ip t = elim (Bool-cases (works increment_attempt)) [
    | inl counts ↦ rw counts (counted-step id (find_session id t.sessions) _)
    | inr fails ↦ rw fails refl
  ]

  complete_reverify-AtLeast :
      (id step : ℕ) (t : Tables)
      → IsNew t.last_totp_step step
      → AtLeast t.last_totp_step (finished (complete_reverify works now id step t)).1.last_totp_step
  unfolding complete_reverify
  complete_reverify-AtLeast id step t new =
      let grown = IsNew-AtLeast t.last_totp_step step new in
      elim (Bool-cases (works update_step)) [
        | inr fails ↦ rw fails (AtLeast-refl t.last_totp_step)
        | inl first ↦ elim (Bool-cases (works mark_verified)) [
          | inr fails ↦ rw (first, fails) grown
          | inl second ↦ elim (Bool-cases (works reset_attempt)) [
            | inr fails ↦ rw (first, second, fails) grown
            | inl third ↦ rw (first, second, third) grown
          ]
        ]
      ]

  with_step-AtLeast :
      (sess : Session) (ip : Text) (o : Option ℕ) (t : Tables)
      → AtLeast t.last_totp_step (with_step works now sess ip o t).1.last_totp_step
  unfolding with_step
  with_step-AtLeast sess ip none t =
      rw (totp_failure-step sess.id ip t) (AtLeast-refl t.last_totp_step)
  with_step-AtLeast sess ip (some step) t = elim (Bool-cases (is_replay t.last_totp_step step)) [
    | inl replay ↦ rw replay (AtLeast-refl t.last_totp_step)
    | inr new ↦
        rw new
          (complete_reverify-AtLeast sess.id step t (not_replay-IsNew t.last_totp_step step new))
  ]

  with_secret-AtLeast :
      (generate : Text → ℕ → Option Text) (sess : Session) (ip code : Text) (o : Option Text)
      (t : Tables)
      → AtLeast t.last_totp_step (with_secret works now generate sess ip code o t).1.last_totp_step
  unfolding with_secret
  with_secret-AtLeast generate sess ip code none t = AtLeast-refl t.last_totp_step
  with_secret-AtLeast generate sess ip code (some secret) t =
      elim (Bool-cases (allow ip now t.hits).0) [
        | inr denied ↦ rw denied (AtLeast-refl t.last_totp_step)
        | inl allowed ↦ rw allowed (
            with_step-AtLeast sess ip (verify_totp_code generate secret code now)
              (record t { hits = (allow ip now t.hits).1 }))
      ]

  require_totp_code-AtLeast :
      (generate : Text → ℕ → Option Text) (allow_recent : Bool) (sess : Session) (r : Request)
      (t : Tables)
      → AtLeast t.last_totp_step
          (require_totp_code works now generate allow_recent (some sess) r t).1.last_totp_step
  unfolding require_totp_code
  require_totp_code-AtLeast generate allow_recent sess r t =
      let same = AtLeast-refl t.last_totp_step in
      elim (Bool-cases r.is_get) [
        | inl get ↦ rw get same
        | inr post ↦ elim (Bool-cases (is_empty (totp_code_from_request r))) [
          | inl no_code ↦ rw (post, no_code) same
          | inr has_code ↦ elim (Bool-cases (works load_account)) [
            | inr fails ↦ rw (post, has_code, fails) same
            | inl loads ↦
                rw (post, has_code, loads)
                  (with_secret-AtLeast generate sess r.ip (totp_code_from_request r) t.totp_secret
                    t)
          ]
        ]
      ]

-- Requests to the routes that prepare and broadcast, one after the other, of any sessions, at any times
-- and with any answers of the database.
module _ (generate : Text → ℕ → Option Text) where
  pub data Visits (t : Tables) : Tables → Type 0 where
    here : Visits t t
    next :
        {u : Tables} (works : Statement → Bool) (now id : ℕ) (r : Request)
        → Visits t u
        → Visits t (tron_proxy works now generate id r u).1

  looked_up-AtLeast :
      (works : Statement → Bool) (now id : ℕ) (o : Option Session) (r : Request) (t : Tables)
      → AtLeast t.last_totp_step (looked_up works now generate id o r t).1.last_totp_step
  looked_up-AtLeast works now id none r t = AtLeast-refl t.last_totp_step
  looked_up-AtLeast works now id (some s) r t = elim (Bool-cases (is_valid now s)) [
    | inr out ↦ elim (Bool-cases (works drop_session)) [
      | inl drops ↦ rw (out, drops) (AtLeast-refl t.last_totp_step)
      | inr stays ↦ rw (out, stays) (AtLeast-refl t.last_totp_step)
    ]
    | inl valid ↦ elim (Bool-cases (works touch)) [
      | inr fails ↦ rw (valid, fails) (AtLeast-refl t.last_totp_step)
      | inl touches ↦
          rw (valid, touches)
            (require_totp_code-AtLeast works now generate true (record s { last_seen_at = now }) r
              (change_session id (λ x. record x { last_seen_at = now }) t))
    ]
  ]

  tron_proxy-AtLeast :
      (works : Statement → Bool) (now id : ℕ) (r : Request) (t : Tables)
      → AtLeast t.last_totp_step (tron_proxy works now generate id r t).1.last_totp_step
  unfolding tron_proxy
  tron_proxy-AtLeast works now id r t = elim (Bool-cases (works load_session)) [
    | inr fails ↦ rw fails (AtLeast-refl t.last_totp_step)
    | inl loads ↦ rw loads (looked_up-AtLeast works now id (find_session id t.sessions) r t)
  ]

  Visits-AtLeast : {t u : Tables} → Visits t u → AtLeast t.last_totp_step u.last_totp_step
  Visits-AtLeast {t} here = AtLeast-refl t.last_totp_step
  Visits-AtLeast {t} (next {u} works now id r v) =
      AtLeast-trans t.last_totp_step u.last_totp_step _ (Visits-AtLeast v)
        (tron_proxy-AtLeast works now id r u)

  later_step :
      (used step : ℕ) (o last : Option ℕ)
      → o ≡ some used
      → AtLeast o last
      → IsNew last step
      → used < step
  later_step used step none last e h new = cc e
  later_step used step (some old) none e h new = absurd h
  later_step used step (some old) (some newer) e h new =
      let q : old ≡ used = ground (arith, e) in omega (arith, h, new, q)

  -- Once the step of a code is kept as used, then after any requests to the routes that prepare and
  -- broadcast, one after the other, of any sessions and with any failures of the database, a
  -- request that carries a code and is let through carries the code of a later step, which is kept
  -- in turn.
  pub no_step_twice :
      {t u : Tables} (used : ℕ)
      → t.last_totp_step ≡ some used
      → Visits t u
      → (works : Statement → Bool) (now : ℕ) (allow_recent : Bool) (sess : Session) (r : Request)
      → r.is_get ≡ false
      → is_empty (totp_code_from_request r) ≡ false
      → let (response, after) = require_totp_code works now generate allow_recent (some sess) r u in
        response ≡ served
        → (secret : Text) × ((step : ℕ) × IsCode generate secret (totp_code_from_request r) now step
            × (used < step)
            × (after.last_totp_step ≡ some step))
  no_step_twice {t} {u} used e v works now allow_recent sess r post has_code ok =
      elim (require_totp_code-Authorised works now generate allow_recent sess r u ok) [
        | inl (get, _) ↦ absurd (cc (get, post))
        | inr (inl (_, no_code, _, _)) ↦ absurd (cc (no_code, has_code))
        | inr (inr (_, _, (secret, known, (step, code, new, kept)))) ↦ (
          secret,
          (
            step,
            code,
            later_step used step t.last_totp_step u.last_totp_step e (Visits-AtLeast v) new,
            kept,
          ),
        )
      ]
