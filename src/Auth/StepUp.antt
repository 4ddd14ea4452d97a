-- ===== src/Auth/StepUp.antt =====
-- internal/auth/middleware.go with session.go, totp.go and totp_flow.go: the two gates of the routes that
-- prepare and broadcast. `generate`, a parameter, is the code of a secret at a time step, or nothing
-- where the library fails; `works` says which statements of the database succeed. A step of 30 seconds
-- before the first one is taken for the first one.
pub mod Laws
pub mod Replay
pub mod Batch
use ucollection.Base.{
  ℕ, suc, ◌+◌, ◌-◌, ◌/◌, Text, codes, List, [], ◌∷◌, Bool, true, false, not, ◌&&◌, Option, none,
  some, ltb, leb, ◌==◌, text_eq, if◌then◌else◌, is_empty,
}
use ucollection.Auth.{
  SessionStatus, pending_2fa, active, Session, Tables, find_session, update_session, delete_session,
}
use ucollection.Auth.Limiter.{Hits, allow, record_failure}

pub data Statement : Type 0 where
  load_session drop_session touch load_account update_step mark_verified reset_attempt : Statement
  increment_attempt lock_out : Statement

abbrev pub idle_timeout : ℕ
idle_timeout = 1800

abbrev pub batch_step_up_window : ℕ
batch_step_up_window = 1800

abbrev pub reverify_redirect_grace : ℕ
reverify_redirect_grace = 30

abbrev pub totp_period : ℕ
totp_period = 30

abbrev pub totp_attempt_limit : ℕ
totp_attempt_limit = 5

-- A request, with the code in its header and in its form.
pub record Request : Type 0 where
  pub is_get : Bool
  pub header_code : Text
  pub form_code : Text
  pub ip : Text

abbrev pub totp_code_from_request : Request → Text
totp_code_from_request r = if is_empty r.header_code then r.form_code else r.header_code

-- What a gate does with a request: `served` is a call of the next handler; a redirect to the page that
-- asks for a code, back with the reason of the refusal, or to the login page.
pub data Response : Type 0 where
  served internal_error challenged too_many_attempts locked_out to_login : Response
  refused : Text → Response

-- `time.Since(*at) < window`
abbrev pub since_below : ℕ → Option ℕ → ℕ → Bool
since_below now none window = false
since_below now (some at) window = ltb now (at + window)

abbrev pub is_active : SessionStatus → Bool
is_active pending_2fa = false
is_active active = true

abbrev pub is_replay : Option ℕ → ℕ → Bool
is_replay none step = false
is_replay (some last) step = leb step last

abbrev pub log : Text → Tables → Tables
log action t = record t { audit = action ∷ t.audit }

abbrev pub change_session : ℕ → (Session → Session) → Tables → Tables
change_session id f t = record t { sessions = update_session id f t.sessions }

module _ (generate : Text → ℕ → Option Text) where
  abbrev pub matches : Text → Option Text → Bool
  matches code none = false
  matches code (some want) = want == code

  unfoldable pub first_match : Text → Text → List ℕ → Option ℕ
  first_match secret code [] = none
  first_match secret code (s ∷ steps) =
      if matches code (generate secret s) then some s else first_match secret code steps

  -- `verifyTOTPCode`
  abbrev pub verify_totp_code : Text → Text → ℕ → Option ℕ
  verify_totp_code secret code at =
      let center = at / totp_period in
      if is_empty code
      then none
      else first_match secret code ((center - 1) ∷ center ∷ suc center ∷ [])

-- The three conditions of `lookupActiveSession`.
abbrev pub is_valid : ℕ → Session → Bool
is_valid now s =
    is_active s.status && ltb now s.expires_at && ltb now (s.last_seen_at + idle_timeout)

abbrev pub finished : Bool × Tables → Response × Tables
finished (true, t) = (served, log (codes "TOTP_STEPUP_SUCCESS") t)
finished (false, t) = (internal_error, t)

module _ (works : Statement → Bool) (now : ℕ) where
  -- `completeReverify`: three statements, with no transaction around them; false if one fails.
  unfoldable pub complete_reverify : ℕ → ℕ → Tables → Bool × Tables
  complete_reverify id step t =
      let stepped = record t { last_totp_step = some step } in
      let marked =
        change_session id
          (λ s. record s { last_totp_verified_at = some now; last_step_up_verified_at = some now })
          stepped in
      if not (works update_step)
      then (false, t)
      else if not (works mark_verified)
      then (false, stepped)
      else if not (works reset_attempt)
      then (false, marked)
      else (true, change_session id (λ s. record s { totp_attempt_count = 0 }) marked)

  abbrev counted : ℕ → Option Session → Tables → Response × Tables
  counted id none t = (internal_error, t)
  counted id (some s) t =
      let count = suc s.totp_attempt_count in
      let after =
        change_session id (λ r. record r { totp_attempt_count = suc r.totp_attempt_count }) t in
      if not (leb totp_attempt_limit count)
      then (refused (codes "invalid"), log (codes "TOTP_STEPUP_FAILED") after)
      else if not (works lock_out)
      then (internal_error, after)
      else (
        locked_out,
        log (codes "SESSION_LOCKED") (record after { sessions = delete_session id after.sessions }),
      )

  -- A wrong code, through `handleTOTPFailure`.
  unfoldable pub totp_failure : ℕ → Text → Tables → Response × Tables
  totp_failure id ip t =
      let failed = record t { hits = record_failure ip now t.hits } in
      if works increment_attempt
      then counted id (find_session id failed.sessions) failed
      else (internal_error, failed)

  unfoldable pub with_step : Session → Text → Option ℕ → Tables → Response × Tables
  with_step sess ip none t = totp_failure sess.id ip t
  with_step sess ip (some step) t =
      if is_replay t.last_totp_step step
      then (refused (codes "replay"), t)
      else finished (complete_reverify sess.id step t)

  module _ (generate : Text → ℕ → Option Text) where
    unfoldable pub with_secret : Session → Text → Text → Option Text → Tables → Response × Tables
    with_secret sess ip code none t = (internal_error, t)
    with_secret sess ip code (some secret) t =
        let (allowed, hits) = allow ip now t.hits in
        let asked = record t { hits = hits } in
        if allowed
        then with_step sess ip (verify_totp_code generate secret code now) asked
        else (too_many_attempts, asked)

    -- `requireTOTPCode`
    unfoldable pub require_totp_code : Bool → Option Session → Request → Tables → Response × Tables
    require_totp_code allow_recent none r t = (internal_error, t)
    require_totp_code allow_recent (some sess) r t =
        let code = totp_code_from_request r in
        if r.is_get
        then (
          if since_below now sess.last_step_up_verified_at reverify_redirect_grace
              then served
              else challenged,
          t,
        )
        else if is_empty code
        then (
          if allow_recent && since_below now sess.last_step_up_verified_at batch_step_up_window
              then served
              else refused (codes "missing"),
          t,
        )
        else if works load_account
        then with_secret sess r.ip code t.totp_secret t
        else (internal_error, t)

    -- `RequireSession` with `lookupActiveSession` behind a session's cookie, and then the gate of the
    -- routes that prepare and broadcast. The check of the Origin header is left out.
    abbrev pub looked_up : ℕ → Option Session → Request → Tables → Response × Tables
    looked_up id none r t = (to_login, t)
    looked_up id (some s) r t =
        let seen = change_session id (λ x. record x { last_seen_at = now }) t in
        if not (is_valid now s)
        then (
          to_login,
          if works drop_session then record t { sessions = delete_session id t.sessions } else t,
        )
        else if not (works touch)
        then (internal_error, t)
        else require_totp_code true (some (record s { last_seen_at = now })) r seen

    unfoldable pub tron_proxy : ℕ → Request → Tables → Response × Tables
    tron_proxy id r t =
        if works load_session
        then looked_up id (find_session id t.sessions) r t
        else (internal_error, t)
