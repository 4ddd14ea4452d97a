-- ===== src/Auth/Limiter.antt =====
-- internal/auth/ratelimit.go: how many failures an address may have in a quarter of an hour. The mutex
-- makes each call one step.
pub mod Laws
use ucollection.Base.{
  ℕ, ◌+◌, Text, List, [], ◌∷◌, ◌++◌, Bool, length, ltb, ◌==◌, text_eq, if◌then◌else◌,
}

abbrev pub ip_rate_limit_window : ℕ
ip_rate_limit_window = 900

abbrev pub ip_rate_limit_max : ℕ
ip_rate_limit_max = 10

-- `l.hits`; an address that is not a key has no entries.
abbrev pub Hits : Type 0
Hits = Text → List ℕ

-- `t.After(cutoff)`
abbrev pub in_window : ℕ → ℕ → Bool
in_window now t = ltb now (t + ip_rate_limit_window)

abbrev pub kept : ℕ → List ℕ → List ℕ
kept now [] = []
kept now (t ∷ ts) = if in_window now t then t ∷ kept now ts else kept now ts

abbrev pub set_hits : Text → List ℕ → Hits → Hits
set_hits ip ts hits other = if other == ip then ts else hits other

abbrev pub prune : Text → ℕ → Hits → List ℕ × Hits
prune ip now hits = let ts = kept now (hits ip) in (ts, set_hits ip ts hits)

unfoldable pub allow : Text → ℕ → Hits → Bool × Hits
allow ip now hits =
    let (ts, after) = prune ip now hits in (ltb (length ts) ip_rate_limit_max, after)

unfoldable pub record_failure : Text → ℕ → Hits → Hits
record_failure ip now hits =
    let (ts, after) = prune ip now hits in set_hits ip (ts ++ now ∷ []) after
