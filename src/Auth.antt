-- ===== src/Auth.antt =====
-- internal/auth: the session and the one-time code that a request of an admin page needs. Times are
-- seconds; the middlewares are functions of the tables, the request and the time.
pub mod Limiter
pub mod StepUp
mod Tests
use ucollection.Base.{ℕ, ◌+◌, Text, List, [], ◌∷◌, Option, none, some, ◌==◌, nat_eq, if◌then◌else◌}
use ucollection.Auth.Limiter.{Hits}

pub data SessionStatus : Type 0 where
  pending_2fa active : SessionStatus

-- A row of `admin_sessions`, by its id in place of its token's hash.
pub record Session : Type 0 where
  pub id : ℕ
  pub status : SessionStatus
  pub totp_attempt_count : ℕ
  pub expires_at : ℕ
  pub last_seen_at : ℕ
  pub last_totp_verified_at : Option ℕ
  pub last_step_up_verified_at : Option ℕ

-- The columns of the one row of `admin_account` that a code is checked against, the sessions, the
-- failures in the memory of the process, and the types of the entries of the audit log, the latest in
-- front.
pub record Tables : Type 0 where
  pub totp_secret : Option Text
  pub last_totp_step : Option ℕ
  pub sessions : List Session
  pub hits : Hits
  pub audit : List Text

unfoldable pub find_session : ℕ → List Session → Option Session
find_session id [] = none
find_session id (s ∷ ss) = if s.id == id then some s else find_session id ss

unfoldable pub update_session : ℕ → (Session → Session) → List Session → List Session
update_session id f [] = []
update_session id f (s ∷ ss) = (if s.id == id then f s else s) ∷ update_session id f ss

pub delete_session : ℕ → List Session → List Session
delete_session id [] = []
delete_session id (s ∷ ss) =
    let rest = delete_session id ss in if s.id == id then rest else s ∷ rest
