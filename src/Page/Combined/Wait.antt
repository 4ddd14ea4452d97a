-- ===== src/Page/Combined/Wait.antt =====
-- What `waitOnChain` has seen when it returns, and how often it asks.
use ucollection.Base.{
  ℕ, zero, suc, ◌+◌, ◌*◌, ◌≤◌, ◌≡◌, refl, sym, ap, ◌∙◌, inl, inr, Text, List, [], ◌∷◌, ◌++◌, true,
  false, Option, none, some, length, length-append, All, All-append, append_assoc, arith,
  Bool-cases,
}
use ucollection.Base.Result.{Failure, Result, ok, err}
use ucollection.Crypto.{Crypto}
use ucollection.Page.{
  PageData, Asset, transaction_info, Request, Body, Reply, rejected, redirected, response, Exchange,
  Session,
}
use ucollection.Page.Run.{pure, lift, ◌>>=◌, ◌>>◌, after, header, read_reply, body_of, post}
use ucollection.Page.Combined.{seen, react, sleep, poll}

-- The answer that lets the flow go on: the transaction is on chain, and it succeeded.
pub record SeenOnChain (tx_id : Option Text) (kind : Asset) (e : Exchange) : Type 0 where
  pub status : ℕ
  pub body : Body
  pub asked : e.0.call ≡ transaction_info tx_id kind
  pub answered : e.1 ≡ response true status (some body)
  pub found : body.found ≡ true
  pub success : body.success ≡ true

module _ (c : Crypto) (server : List Exchange → Request → Reply) (page : PageData)
    (tx_id : Option Text) (kind : Asset) where
  asked : Session → Request
  asked s = record { call = transaction_info tx_id kind; totp_code = header s.pending_totp_code }

  answer : Session → Reply
  unfolding asked
  answer s = server s.log (asked s)

  next : Session → Session
  unfolding answer
  next s = record s { pending_totp_code = none; log = (asked s, answer s) ∷ s.log }

  -- The page after the pause between two rounds.
  abbrev pub rested : Session → Session
  rested s = record s { slept = s.slept + 3000 }

  -- One round, by the answer that it gets.
  round : ℕ → Session → Reply → Result (Unit {0}) × Session
  round tries s r =
      after (read_reply r, next s)
        λ answer. lift (body_of answer) >>= λ b.
          react c server page tx_id kind (sleep 3000 >> poll c server page tries tx_id kind)
            (seen b)

  abbrev pub Asks : Exchange → Type 0
  Asks e = e.0.call ≡ transaction_info tx_id kind

  -- The exchanges since `base`: at most `tries`, the last of which has seen the transaction if the
  -- wait has returned, and the sleep between them.
  abbrev pub Waited : ℕ → Session → Result (Unit {0}) × Session → Type 0
  Waited tries start ends =
      (rounds : List Exchange) × (ends.1.log ≡ rounds ++ start.log)
      × (length rounds ≤ tries)
      × (ends.1.slept ≤ start.slept + 3000 * tries)
      × All Asks rounds
      × (ends.0 ≡ ok tt
          → (last : Exchange) × (older : List Exchange) × (rounds ≡ last ∷ older)
            × SeenOnChain tx_id kind last)

  exchange : Session → Exchange
  exchange s = (asked s, answer s)

  -- A round that ends the wait with an error.
  stops : (tries : ℕ) (s : Session) (e : Failure) → Waited (suc tries) s (err e, next s)
  unfolding next asked
  stops tries s e =
      ((asked s, answer s) ∷ [], refl, omega arith, omega arith, (refl, tt), λ h. absurd (cc h))

  -- A round that lets the wait go on.
  goes_on :
      (tries : ℕ) (s : Session) (p : Result (Unit {0}) × Session)
      → Waited tries (rested (next s)) p
      → Waited (suc tries) s p
  unfolding next asked
  goes_on tries s p (rounds, l, n, slept, a, last) = (
    rounds ++ (asked s, answer s) ∷ [],
    l ∙ sym (append_assoc rounds ((asked s, answer s) ∷ []) s.log),
    omega (arith, length-append rounds ((asked s, answer s) ∷ [])),
    omega arith,
    All-append Asks rounds ((asked s, answer s) ∷ []) a (refl, tt),
    λ h.
        let (e, older, r, o) = last h in
        (e, older ++ (asked s, answer s) ∷ [], ap (λ l. l ++ (asked s, answer s) ∷ []) r, o),
  )

  confirms :
      (tries : ℕ) (s : Session) (status : ℕ) (b : Body)
      → answer s ≡ response true status (some b)
      → b.found ≡ true
      → b.success ≡ true
      → Waited (suc tries) s (ok tt, next s)
  unfolding next asked
  confirms tries s status b e f g = (
    (asked s, answer s) ∷ [],
    refl,
    omega arith,
    omega arith,
    (refl, tt),
    λ h. (
      (asked s, answer s),
      [],
      refl,
      record { status = status; body = b; asked = refl; answered = e; found = f; success = g },
    ),
  )

  reacts :
      (tries : ℕ) (s : Session) (status : ℕ) (b : Body)
      → answer s ≡ response true status (some b)
      → Waited tries (rested (next s)) (poll c server page tries tx_id kind (rested (next s)))
      → Waited (suc tries) s (
          react c server page tx_id kind
            (sleep 3000 >> poll c server page tries tx_id kind)
            (seen b)
            (next s))
  unfolding lift pure sleep ◌>>=◌
  reacts tries s status b e rest = elim (Bool-cases b.found) [
    | inl f ↦ elim (Bool-cases b.success) [
      | inl g ↦ rw (f, g) (confirms tries s status b e f g)
      | inr g ↦ rw (f, g) (stops tries s _)
    ]
    | inr f ↦ rw f (goes_on tries s (poll c server page tries tx_id kind (rested (next s))) rest)
  ]

  round-Waited :
      (tries : ℕ) (s : Session) (r : Reply)
      → answer s ≡ r
      → Waited tries (rested (next s)) (poll c server page tries tx_id kind (rested (next s)))
      → Waited (suc tries) s (round tries s r)
  unfolding round read_reply lift ◌>>=◌
  round-Waited tries s rejected e rest = stops tries s _
  round-Waited tries s redirected e rest = stops tries s _
  round-Waited tries s (response false status b) e rest = stops tries s _
  round-Waited tries s (response true status none) e rest = stops tries s _
  round-Waited tries s (response true status (some b)) e rest = reacts tries s status b e rest

  -- A wait with `tries` rounds makes at most that many requests, each for the transaction that it
  -- waits for, and sleeps at most three seconds for each. If it returns without an error, the
  -- answer to its last request was that the transaction is on chain and succeeded.
  pub poll-Waited :
      (tries : ℕ) (s : Session) → Waited tries s (poll c server page tries tx_id kind s)
  unfolding poll lift sleep ◌>>=◌ round post read_reply answer next
  poll-Waited zero s = ([], refl, omega arith, omega arith, tt, λ h. absurd (cc h))
  poll-Waited (suc tries) s =
      round-Waited tries s (answer s) refl (poll-Waited tries (rested (next s)))
