-- ===== src/Auth/Tests.antt =====
-- The theorems on the gates for a secret whose code is its step, and a batch of two requests.
use ucollection.Base.{
  ℕ, ◌<◌, ◌≡◌, ◌⊎◌, refl, Text, codes, List, [], ◌∷◌, Bool, true, false, Option, none, some, All,
  ltb, length, is_empty, text_beq, arith,
}
use ucollection.Auth.{active, Session, Tables, find_session, update_session}
use ucollection.Auth.Limiter.{allow, kept, ip_rate_limit_max}
use ucollection.Auth.Limiter.Laws.{Call, asks, fails, after_all, failures_of, allow_all_failures}
use ucollection.Auth.StepUp.{
  Statement, Request, Response, served, totp_code_from_request, reverify_redirect_grace,
  batch_step_up_window, complete_reverify, with_step, with_secret, first_match, require_totp_code,
  tron_proxy,
}
use ucollection.Auth.StepUp.Laws.{Within, Accepted, IsCode, require_totp_code-Authorised}
use ucollection.Auth.StepUp.Replay.{here, no_step_twice}
use ucollection.Auth.StepUp.Batch.{Follower, batch, batch_all_served}

abbrev calls : List Call
calls =
    asks (codes "a") 950 ∷ fails (codes "a") 940 ∷ fails (codes "b") 30 ∷ fails (codes "a") 20 ∷ []

allow_all_failures_example :
    (allow (codes "a") 960 (after_all calls)).0
    ≡ ltb (length (kept 960 (failures_of (codes "a") calls))) ip_rate_limit_max
allow_all_failures_example =
    allow_all_failures calls (codes "a") 960
      (omega arith, (omega arith, (omega arith, (omega arith, tt))))

abbrev generate : Text → ℕ → Option Text
generate secret step = some (step ∷ [])

abbrev works : Statement → Bool
works s = true

abbrev session : Session
session = record {
  id = 7;
  status = active;
  totp_attempt_count = 0;
  expires_at = 40000;
  last_seen_at = 3000;
  last_totp_verified_at = none;
  last_step_up_verified_at = none;
}

abbrev tables : Tables
tables = record {
  totp_secret = some (codes "s");
  last_totp_step = some 90;
  sessions = session ∷ [];
  hits = λ ip. [];
  audit = [];
}

abbrev with_code : Request
with_code = record { is_get = false; header_code = 100 ∷ []; form_code = []; ip = codes "a" }

abbrev without_code : Request
without_code = record { is_get = false; header_code = []; form_code = []; ip = codes "a" }

let_through :
    (require_totp_code works 3000 generate true (some session) with_code tables).0 ≡ served
unfolding require_totp_code with_secret with_step complete_reverify allow first_match text_beq
let_through = refl

require_totp_code-Authorised_example :
    ((false ≡ true) × Within reverify_redirect_grace 3000 none)
    ⊎ ((false ≡ false)
        × (is_empty (totp_code_from_request with_code) ≡ true)
        × (true ≡ true)
        × Within batch_step_up_window 3000 none)
    ⊎ ((false ≡ false)
        × ((allow (codes "a") 3000 tables.hits).0 ≡ true)
        × Accepted 3000 generate
            (totp_code_from_request with_code)
            tables
            (require_totp_code works 3000 generate true (some session) with_code tables).1)
require_totp_code-Authorised_example =
    require_totp_code-Authorised works 3000 generate true session with_code tables let_through

no_step_twice_example :
    (secret : Text) × ((step : ℕ) × IsCode generate secret
        (totp_code_from_request with_code)
        3000
        step
      × (90 < step)
      × ((require_totp_code works 3000 generate true
            (some session)
            with_code
            tables).1.last_totp_step
          ≡ some step))
no_step_twice_example =
    no_step_twice generate {t = tables} {u = tables} 90 refl here works 3000 true session with_code
      refl refl let_through

abbrev follower : Follower
follower = record {
  works = works;
  now = 4000;
  request = without_code;
  loads = refl;
  touches = refl;
  is_post = refl;
  no_code = refl;
}

first : (tron_proxy works 3000 generate 7 with_code tables).0 ≡ served
unfolding tron_proxy require_totp_code with_secret with_step complete_reverify allow first_match
    text_beq find_session update_session
first = refl

found : find_session 7 (session ∷ []) ≡ some session
unfolding find_session
found = refl

batch_all_served_example :
    All
      (λ (response : Response). response ≡ served)
      (batch generate 7 (follower ∷ []) (tron_proxy works 3000 generate 7 with_code tables).1)
batch_all_served_example =
    batch_all_served generate works 3000 7 with_code tables session (follower ∷ []) found refl refl
      first (omega arith, omega arith, omega arith, tt)
