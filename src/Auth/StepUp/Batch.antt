-- ===== src/Auth/StepUp/Batch.antt =====
-- A batch of requests with one code: the first carries it, and the others come within the window.
use mathlib.Core.Path.{subst}
use ucollection.Base.{
  ℕ, ◌+◌, ◌≤◌, ◌<◌, ◌≡◌, refl, sym, ap, inl, inr, Text, List, [], ◌∷◌, Bool, true, false, Option,
  none, some, All, ◌==◌, nat_eq, is_empty, Bool-cases, Option-cases, arith,
}
use ucollection.Auth.{Session, Tables, find_session, update_session}
use ucollection.Auth.Limiter.{allow}
use ucollection.Auth.StepUp.{
  Statement, load_account, load_session, touch, update_step, mark_verified, reset_attempt, Request,
  Response, served, is_active, since_below, is_replay, verify_totp_code, complete_reverify,
  finished, with_step, with_secret, require_totp_code, totp_code_from_request, is_valid, tron_proxy,
  change_session, batch_step_up_window,
}
use ucollection.Auth.StepUp.Laws.{totp_failure-not_served}

find_session-update_session :
    (id : ℕ) (f : Session → Session) (ss : List Session) (s : Session)
    → ((x : Session) → (f x).id ≡ x.id)
    → find_session id ss ≡ some s
    → find_session id (update_session id f ss) ≡ some (f s)
unfolding find_session update_session
find_session-update_session id f [] s same e = cc
find_session-update_session id f (x ∷ ss) s same e = elim (Bool-cases (x.id == id)) [
  | inl found ↦
      let k : ((f x).id == id) ≡ true = rw (same x) found in
      rw (found, k) (ap (λ r. some (f r)) (ground (arith, e, found)))
  | inr other ↦
      rw (other, other) (find_session-update_session id f ss s same (ground (arith, e, other)))
]

-- A session that may go on: active, entered its code at `at`, and was seen last at `seen`.
abbrev pub Live : (id at seen expires_at : ℕ) → Tables → Type 0
Live id at seen expires_at t =
    (s : Session) × (find_session id t.sessions ≡ some s)
    × (is_active s.status ≡ true)
    × (s.expires_at ≡ expires_at)
    × (s.last_seen_at ≡ seen)
    × (s.last_step_up_verified_at ≡ some at)

-- A request that is let through without a code.
pub record Follower : Type 0 where
  pub works : Statement → Bool
  pub now : ℕ
  pub request : Request
  pub loads : works load_session ≡ true
  pub touches : works touch ≡ true
  pub is_post : request.is_get ≡ false
  pub no_code : is_empty (totp_code_from_request request) ≡ true

module _ (generate : Text → ℕ → Option Text) (id : ℕ) where
  -- The answers to requests that come one after the other.
  pub batch : List Follower → Tables → List Response
  batch [] t = []
  batch (q ∷ qs) t =
      let (response, after) = tron_proxy q.works q.now generate id q.request t in
      response ∷ batch qs after

  -- Each comes after the one before it, within the window, and before the session ends.
  abbrev pub InWindow : (at seen expires_at : ℕ) → List Follower → Type 0
  InWindow at seen expires_at [] = Unit
  InWindow at seen expires_at (q ∷ qs) =
      (seen ≤ q.now)
      × (q.now < at + batch_step_up_window)
      × (q.now < expires_at)
      × InWindow at q.now expires_at qs

  follower_served :
      (q : Follower) (at seen expires_at : ℕ) (t : Tables)
      → Live id at seen expires_at t
      → at ≤ seen
      → seen ≤ q.now
      → q.now < at + batch_step_up_window
      → q.now < expires_at
      → ((tron_proxy q.works q.now generate id q.request t).0 ≡ served)
        × Live id at q.now expires_at (tron_proxy q.works q.now generate id q.request t).1
  unfolding tron_proxy require_totp_code
  follower_served q at seen expires_at t (s, row, act, exp, last, entered) h k l m =
      let valid : is_valid q.now s ≡ true = ground (arith, act, exp, last) in
      let recent : since_below q.now s.last_step_up_verified_at batch_step_up_window ≡ true =
        rw entered (ground arith) in
      rw (q.loads, row, valid, q.touches, q.is_post, q.no_code, recent)
        (
          refl,
          (
            record s { last_seen_at = q.now },
            find_session-update_session id (λ x. record x { last_seen_at = q.now }) t.sessions s
                (λ x. refl) row,
            act,
            exp,
            refl,
            entered,
          ),
        )

  batch_served :
      (qs : List Follower) (at seen expires_at : ℕ) (t : Tables)
      → Live id at seen expires_at t
      → at ≤ seen
      → InWindow at seen expires_at qs
      → All (λ (r : Response). r ≡ served) (batch qs t)
  unfolding batch
  batch_served [] at seen expires_at t live h _ = tt
  batch_served (q ∷ qs) at seen expires_at t live h (k, l, m, rest) =
      let (ok, live') = follower_served q at seen expires_at t live h k l m in
      (ok, batch_served qs at q.now expires_at _ live' (omega arith) rest)

module _ (works : Statement → Bool) (now : ℕ) where
  complete_reverify-Live :
      (id step seen expires_at : ℕ) (t : Tables) (s : Session)
      → find_session id t.sessions ≡ some s
      → is_active s.status ≡ true
      → s.expires_at ≡ expires_at
      → s.last_seen_at ≡ seen
      → (finished (complete_reverify works now id step t)).0 ≡ served
      → Live id now seen expires_at (finished (complete_reverify works now id step t)).1
  unfolding complete_reverify
  complete_reverify-Live id step seen expires_at t s row act exp last e =
      let mark = λ (x : Session). record x {
        last_totp_verified_at = some now;
        last_step_up_verified_at = some now;
      } in
      let reset = λ (x : Session). record x { totp_attempt_count = 0 } in
      let marked = find_session-update_session id mark t.sessions s (λ x. refl) row in
      let all = find_session-update_session id reset _ (mark s) (λ x. refl) marked in
      elim (Bool-cases (works update_step)) [
        | inr fails ↦ absurd (cc (rw fails at e))
        | inl first ↦ elim (Bool-cases (works mark_verified)) [
          | inr fails ↦ absurd (cc (rw (first, fails) at e))
          | inl second ↦ elim (Bool-cases (works reset_attempt)) [
            | inr fails ↦ absurd (cc (rw (first, second, fails) at e))
            | inl third ↦ rw (first, second, third) (reset (mark s), all, act, exp, last, refl)
          ]
        ]
      ]

  module _ (generate : Text → ℕ → Option Text) (id seen expires_at : ℕ) (sess : Session)
      (same : sess.id ≡ id) where
    with_secret-Live :
        (ip code : Text) (o : Option Text) (t : Tables) (s : Session)
        → find_session id t.sessions ≡ some s
        → is_active s.status ≡ true
        → s.expires_at ≡ expires_at
        → s.last_seen_at ≡ seen
        → (with_secret works now generate sess ip code o t).0 ≡ served
        → Live id now seen expires_at (with_secret works now generate sess ip code o t).1
    unfolding with_secret with_step
    with_secret-Live ip code none t s row act exp last e = absurd (cc e)
    with_secret-Live ip code (some secret) t s row act exp last e =
        let asked = record t { hits = (allow ip now t.hits).1 } in
        elim (Bool-cases (allow ip now t.hits).0) [
          | inr denied ↦ absurd (cc (rw denied at e))
          | inl allowed ↦ elim (Option-cases (verify_totp_code generate secret code now)) [
            | inl wrong ↦
                absurd
                  (totp_failure-not_served works now sess.id ip asked (rw (allowed, wrong) at e))
            | inr (step, right) ↦ elim (Bool-cases (is_replay t.last_totp_step step)) [
              | inl replay ↦ absurd (cc (rw (allowed, right, replay) at e))
              | inr new ↦
                  rw (allowed, right, new)
                    (subst
                      (λ k.
                        Live id now seen expires_at
                          (finished (complete_reverify works now k step asked)).1)
                      (sym same)
                      (complete_reverify-Live id step seen expires_at asked s row act exp last (
                        subst
                          (λ k. (finished (complete_reverify works now k step asked)).0 ≡ served)
                          same (rw (allowed, right, new) at e))))
            ]
          ]
        ]

find_session-id :
    (id : ℕ) (ss : List Session) (s : Session) → find_session id ss ≡ some s → s.id ≡ id
unfolding find_session
find_session-id id [] s e = cc
find_session-id id (x ∷ ss) s e = elim (Bool-cases (x.id == id)) [
  | inl found ↦ ground (arith, e, found)
  | inr other ↦ find_session-id id ss s (ground (arith, e, other))
]

is_valid-active : (now : ℕ) (s : Session) → is_valid now s ≡ true → is_active s.status ≡ true
is_valid-active now s h = ground (arith, h)

first-Live :
    (generate : Text → ℕ → Option Text) (works : Statement → Bool) (now id : ℕ) (r : Request)
    (t : Tables) (s : Session)
    → find_session id t.sessions ≡ some s
    → r.is_get ≡ false
    → is_empty (totp_code_from_request r) ≡ false
    → (tron_proxy works now generate id r t).0 ≡ served
    → Live id now now s.expires_at (tron_proxy works now generate id r t).1
unfolding tron_proxy require_totp_code
first-Live generate works now id r t s row post has_code e =
    elim (Bool-cases (works load_session)) [
      | inr fails ↦ absurd (cc (rw fails at e))
      | inl loads ↦ elim (Bool-cases (is_valid now s)) [
        | inr out ↦ absurd (cc (rw (loads, row, out) at e))
        | inl valid ↦ elim (Bool-cases (works touch)) [
          | inr fails ↦ absurd (cc (rw (loads, row, valid, fails) at e))
          | inl touches ↦ elim (Bool-cases (works load_account)) [
            | inr fails ↦ absurd (cc (rw (loads, row, valid, touches, post, has_code, fails) at e))
            | inl known ↦
                let seen = λ (x : Session). record x { last_seen_at = now } in
                rw (loads, row, valid, touches, post, has_code, known)
                  (with_secret-Live works now generate id now s.expires_at (seen s)
                    (find_session-id id t.sessions s row) r.ip (totp_code_from_request r)
                    t.totp_secret (change_session id seen t) (seen s)
                    (find_session-update_session id seen t.sessions s (λ x. refl) row)
                    (is_valid-active now s valid) refl refl
                    (rw (loads, row, valid, touches, post, has_code, known) at e))
          ]
        ]
      ]
    ]

-- If a request with a code is let through, then so are all that follow in its session without a
-- code, if they come one after the other, each less than half an hour after the first and before
-- the session expires, and the statements that load and touch the session succeed.
pub batch_all_served :
    (generate : Text → ℕ → Option Text) (works : Statement → Bool) (now id : ℕ) (r : Request)
    (t : Tables) (s : Session) (qs : List Follower)
    → find_session id t.sessions ≡ some s
    → r.is_get ≡ false
    → is_empty (totp_code_from_request r) ≡ false
    → (tron_proxy works now generate id r t).0 ≡ served
    → InWindow generate id now now s.expires_at qs
    → All
        (λ (response : Response). response ≡ served)
        (batch generate id qs (tron_proxy works now generate id r t).1)
batch_all_served generate works now id r t s qs row post has_code ok window =
    batch_served generate id qs now now s.expires_at _
      (first-Live generate works now id r t s row post has_code ok) (omega arith) window
