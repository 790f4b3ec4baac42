-- ===== src/RateLimit/Histories.antt =====
-- Histories of the limiter, and runs of checks with their decisions.
use orqent.Base.{ℕ, ◌≤◌, String, List, [], ◌∷◌}
use orqent.RateLimit.{RateLimitPolicy, Decision, Limiter, check, reset, max_retention}

-- A history of the limiter up to a moment: a fresh one, checks and resets, the clock never going back.
-- Each key is checked under the policy that `policy_of` gives it.
pub data Served (policy_of : String → RateLimitPolicy) : ℕ → Limiter → Type 0 where
  fresh : (now : ℕ) → Served policy_of now (record { hits = []; checks_since_sweep = 0 })
  checked :
      {now : ℕ} {limiter : Limiter} (later : ℕ) (key : String)
      → Served policy_of now limiter
      → now ≤ later
      → Served policy_of later (check later key (policy_of key) limiter).1
  cleared :
      {now : ℕ} {limiter : Limiter}
      → Served policy_of now limiter
      → Served policy_of now (reset limiter)

-- One request: when, on which key and under which policy.
pub record Call : Type 0 where
  pub moment : ℕ
  pub key : String
  pub policy : RateLimitPolicy

-- The decisions on a run of requests.
abbrev pub decisions : List Call → Limiter → List Decision
decisions [] limiter = []
decisions (call ∷ calls) limiter =
    (check call.moment call.key call.policy limiter).0
    ∷ decisions calls (check call.moment call.key call.policy limiter).1

-- Requests in order of time, none before `now`, under windows of at most an hour.
abbrev pub Orderly : ℕ → List Call → Type 0
Orderly now [] = Unit
Orderly now (call ∷ calls) =
    (now ≤ call.moment) × (call.policy.window ≤ max_retention) × Orderly call.moment calls
