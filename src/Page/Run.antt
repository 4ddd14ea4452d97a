-- ===== src/Page/Run.antt =====
-- A function of the page: it reads and writes the closure, and may throw. What was written before a
-- throw stays written. `server` is the other end of `fetch`: its answer may depend on all that went
-- before.
pub mod Codes
use ucollection.Base.{
  ℕ, Text, List, [], ◌∷◌, Bool, true, false, Option, none, some, ◌==◌, nat_eq, if◌then◌else◌, ◌≡◌,
  refl,
}
use ucollection.Base.Result.{
  Failure, Result, ok, err, network, totp_intercepted, server_message, http_status, type_error,
}
use ucollection.Page.{
  Session, Note, Line, Call, Request, Body, Reply, rejected, redirected, response, Exchange,
}

abbrev pub Run : Type 0 → Type 0
Run A = Session → Result A × Session

module _ {A : Type 0} where
  unfoldable pub pure : A → Run A
  pure a s = (ok a, s)

  -- A call that touches no state, and may throw.
  unfoldable pub lift : Result A → Run A
  lift r s = (r, s)

module _ {A B : Type 0} where
  abbrev pub after : Result A × Session → (A → Run B) → Result B × Session
  after (ok a, s) f = f a s
  after (err e, s) f = (err e, s)

  infixl 5 ◌>>=◌ ◌>>◌
  unfoldable pub ◌>>=◌ : Run A → (A → Run B) → Run B
  unfolding pure lift
  ◌>>=◌ m f s = after (m s) f

  abbrev pub ◌>>◌ : Run A → Run B → Run B
  m >> k = m >>= λ _. k

unfoldable pub set_note : ℕ → Note → Run (Unit {0})
set_note id note s = (ok tt, record s { notes = λ j. if id == j then note else s.notes j })

-- `consumeTOTPCode`
unfoldable pub consume_totp_code : Run (Option Text)
consume_totp_code s = (ok s.pending_totp_code, record s { pending_totp_code = none })

-- `if (totpCode) headers['X-Totp-Code'] = totpCode`
abbrev pub header : Option Text → Option Text
header none = none
header (some []) = none
header (some (c ∷ code)) = some (c ∷ code)

-- What `postJSON` makes of the response.
abbrev pub error_of : ℕ → Option Body → Failure
error_of status none = http_status status
error_of status (some body) = elim body.message [
  | none ↦ http_status status
  | some message ↦ server_message message
]

unfoldable pub read_reply : Reply → Result (Option Body)
read_reply rejected = err network
read_reply redirected = err totp_intercepted
read_reply (response true status body) = ok body
read_reply (response false status body) = err (error_of status body)

-- Reading a field of `null` throws.
abbrev pub body_of : Option Body → Result Body
body_of none = err type_error
body_of (some body) = ok body

module _ (server : List Exchange → Request → Reply) where
  unfoldable pub post_json : Call → Option Text → Run (Option Body)
  unfolding read_reply
  post_json call totp_code s =
      let request : Request = record { call = call; totp_code = header totp_code } in
      let reply = server s.log request in
      (read_reply reply, record s { log = (request, reply) ∷ s.log })

  -- `postJSON(url, body, consumeTOTPCode())`
  unfoldable pub post : Call → Run (Option Body)
  unfolding post_json consume_totp_code
  post call = do code ← consume_totp_code; post_json call code

-- `m` keeps an invariant, whether it returns or throws.
pub record Maintains {A : Type 0} (P : Session → Type 0) (m : Run A) : Type 0 where
  pub at : (s : Session) → P s → P (m s).1

module _ {A : Type 0} {P : Session → Type 0} where
  pub Maintains-pure : (a : A) → Maintains P (pure a)
  unfolding pure
  Maintains-pure a = record { at = λ s h. h }

  pub Maintains-lift : (r : Result A) → Maintains P (lift r)
  unfolding lift
  Maintains-lift r = record { at = λ s h. h }

  pub Maintains-if :
      (b : Bool) (m n : Run A)
      → (b ≡ true → Maintains P m)
      → (b ≡ false → Maintains P n)
      → Maintains P (if b then m else n)
  Maintains-if true m n km kn = km refl
  Maintains-if false m n km kn = kn refl

module _ {A B : Type 0} {P : Session → Type 0} where
  after-keeps :
      (p : Result A × Session) (f : A → Run B)
      → P p.1
      → ((a : A) → Maintains P (f a))
      → P (after p f).1
  after-keeps (ok a, s) f h k = (k a).at s h
  after-keeps (err e, s) f h k = h

  -- What keeps the invariant in its parts keeps it as a whole.
  pub Maintains-bind :
      (m : Run A) (f : A → Run B)
      → Maintains P m
      → ((a : A) → Maintains P (f a))
      → Maintains P (m >>= f)
  unfolding ◌>>=◌
  Maintains-bind m f km kf = record { at = λ s h. after-keeps (m s) f (km.at s h) kf }

  -- The rest may use that the pure part returned.
  pub Maintains-bind-lift :
      (r : Result A) (f : A → Run B)
      → ((a : A) → r ≡ ok a → Maintains P (f a))
      → Maintains P (lift r >>= f)
  unfolding ◌>>=◌
  Maintains-bind-lift (ok a) f k = record { at = λ s h. (k a refl).at s h }
  Maintains-bind-lift (err e) f k = record { at = λ s h. h }

pub ruleset maintains_rules = (Maintains-pure, Maintains-lift, Maintains-if, Maintains-bind)
