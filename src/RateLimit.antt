-- ===== src/RateLimit.antt =====
-- src/app/infrastructure/ratelimit/limiter.py: the sliding-window limiter, its state passed along.
-- The clock's floats are whole microseconds, and a comparison with `now - window` is written with
-- the window on the other side, so that no difference goes below zero.
-- `RateLimitPolicy.parse` is left out but for its test.
pub mod Histories
pub mod Window
pub mod Tidy
pub mod Sweep
pub mod Bounds
use orqent.Base.{
  ℕ, zero, suc, ◌+◌, ◌-◌, ◌*◌, ◌/◌, ◌≤◌, ◌<◌, String, List, [], ◌∷◌, ◌++◌, map, Option, none, some,
  Bool, true, false, not, ◌&&◌, ◌||◌, ◌==◌, ◌≡◌, ◌≢◌, ◌⊎◌, ◌↔◌, inl, inr, refl, sym, ap, ◌∙◌, arith,
  eq_iff, max, codes, if◌then◌else◌, ltb, leb, eqb, filter, any, all, length, is_nil, mem, In,
  mem→In, In→mem, In-filter, all_of_In, In-append, In-map, not-In-map, Dict, is_some, lookup, has,
  insert, keys, lookup-insert, Result, ok, raise, ◌>>=◌, ◌>>◌, >>=-eq-ok, ok-injective,
  Result-cases, Bool-cases, Option-cases, List-cases, append-nil, append_assoc, and-left, and-right,
  length-append, length-map,
}

abbrev pub second : ℕ
second = 1_000_000

pub record RateLimitPolicy : Type 0 where
  pub limit : ℕ
  pub window : ℕ

-- The test that `parse` ends with.
abbrev pub policy_ok : RateLimitPolicy → Bool
policy_ok policy = leb 1 policy.limit && ltb 0 policy.window

pub record Decision : Type 0 where
  pub allowed : Bool
  pub retry_after : ℕ

pub record Limiter : Type 0 where
  pub hits : Dict (List ℕ)
  pub checks_since_sweep : ℕ

abbrev pub sweep_every : ℕ
sweep_every = 256

abbrev pub max_retention : ℕ
max_retention = 3600 * second

-- `while hits and hits[0] <= cutoff: hits.popleft()`
unfoldable pub expire : (now window : ℕ) → List ℕ → List ℕ
expire now window [] = []
expire now window (h ∷ hs) = if leb (h + window) now then expire now window hs else h ∷ hs

-- `self._hits.setdefault(key, deque())`, read.
unfoldable pub hits_of : String → Limiter → List ℕ
hits_of key limiter = elim (lookup key limiter.hits) [ none ↦ [] | some hs ↦ hs ]

-- `not hits or hits[-1] <= cutoff`
unfoldable pub is_stale : ℕ → List ℕ → Bool
is_stale now [] = true
is_stale now (h ∷ []) = leb (h + max_retention) now
is_stale now (h ∷ j ∷ hs) = is_stale now (j ∷ hs)

-- `_sweep`
unfoldable pub sweep : ℕ → Dict (List ℕ) → Dict (List ℕ)
sweep now [] = []
sweep now ((key, hs) ∷ d) = if is_stale now hs then sweep now d else (key, hs) ∷ sweep now d

-- `_maybe_sweep`
unfoldable pub maybe_sweep : ℕ → Limiter → Limiter
maybe_sweep now limiter =
    if ltb (limiter.checks_since_sweep + 1) sweep_every
    then record limiter { checks_since_sweep = limiter.checks_since_sweep + 1 }
    else record { hits = sweep now limiter.hits; checks_since_sweep = 0 }

abbrev pub wait_of : ℕ → RateLimitPolicy → List ℕ → ℕ
wait_of now policy [] = 0
wait_of now policy (h ∷ hs) = (h + policy.window) - now

abbrev pub refused : ℕ → RateLimitPolicy → List ℕ → Decision
refused now policy hs = record {
  allowed = false;
  retry_after = max 1 (wait_of now policy hs / second + 1);
}

-- `check`, with the clock read as `now`. A limit of 0, which `parse` refuses, would read `hits[0]`
-- of an empty deque.
unfoldable pub check : ℕ → String → RateLimitPolicy → Limiter → Decision × Limiter
check now key policy limiter =
    let hs = expire now policy.window (hits_of key limiter) in
    if leb policy.limit (length hs)
    then (refused now policy hs, record limiter { hits = insert key hs limiter.hits })
    else (
      record { allowed = true; retry_after = 0 },
      maybe_sweep now (record limiter { hits = insert key (hs ++ now ∷ []) limiter.hits }),
    )

-- `reset` and `tracked_keys`
unfoldable pub reset : Limiter → Limiter
reset limiter = record { hits = []; checks_since_sweep = 0 }

unfoldable pub tracked_keys : Limiter → ℕ
tracked_keys limiter = length limiter.hits
