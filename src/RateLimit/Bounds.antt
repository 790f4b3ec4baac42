-- ===== src/RateLimit/Bounds.antt =====
-- How much the limiter stores, and how long it asks to wait, over histories of calls.
use orqent.Base.{
  ℕ, ◌+◌, ◌/◌, ◌≤◌, String, List, [], ◌∷◌, ◌++◌, some, false, ◌==◌, ◌≡◌, sym, arith, eq_iff, inl,
  inr, ltb, leb, length, length-append, All, Dict, lookup, insert, Bool-cases, Option-cases,
  leb-false→lt,
}
use mathlib.Core.Path.{subst}
use orqent.RateLimit.{
  second, RateLimitPolicy, Limiter, expire, hits_of, is_stale, sweep, sweep_every, maybe_sweep,
  wait_of, check, reset,
}
use orqent.RateLimit.Histories.{Served, fresh, checked, cleared}

module _ (policy_of : String → RateLimitPolicy) where
  -- A key's hits: no more than its limit, and none in the future.
  abbrev Fits : ℕ → String → List ℕ → Type 0
  Fits now key hs = (length hs ≤ (policy_of key).limit) × All (λ (h : ℕ). h ≤ now) hs

  abbrev Bounded : ℕ → Dict (List ℕ) → Type 0
  Bounded now d = All (λ (e : String × List ℕ). Fits now e.0 e.1) d

  past-le :
      (now later : ℕ) (hs : List ℕ)
      → now ≤ later
      → All (λ (h : ℕ). h ≤ now) hs
      → All (λ (h : ℕ). h ≤ later) hs
  past-le now later [] order h = tt
  past-le now later (x ∷ hs) order (here, rest) = (omega arith, past-le now later hs order rest)

  Bounded-le : (now later : ℕ) (d : Dict (List ℕ)) → now ≤ later → Bounded now d → Bounded later d
  Bounded-le now later [] order h = tt
  Bounded-le now later ((k, hs) ∷ d) order ((few, past), rest) =
      ((few, past-le now later hs order past), Bounded-le now later d order rest)

  insert-Bounded :
      (now : ℕ) (key : String) (hs : List ℕ) (d : Dict (List ℕ))
      → Fits now key hs
      → Bounded now d
      → Bounded now (insert key hs d)
  unfolding insert
  insert-Bounded now key hs [] fits h = (fits, tt)
  insert-Bounded now key hs ((k, old) ∷ d) fits (here, later) = elim (Bool-cases (k == key)) [
    | inl e ↦ rw e (subst (λ j. Fits now j hs) (sym ((eq_iff k key).0 e)) fits, later)
    | inr e ↦ rw e (here, insert-Bounded now key hs d fits later)
  ]

  sweep-Bounded : (now at : ℕ) (d : Dict (List ℕ)) → Bounded now d → Bounded now (sweep at d)
  unfolding sweep
  sweep-Bounded now at [] h = tt
  sweep-Bounded now at ((k, hs) ∷ d) (here, later) = elim (Bool-cases (is_stale at hs)) [
    | inl e ↦ rw e (sweep-Bounded now at d later)
    | inr e ↦ rw e (here, sweep-Bounded now at d later)
  ]

  maybe_sweep-Bounded :
      (now : ℕ) (l : Limiter) → Bounded now l.hits → Bounded now (maybe_sweep now l).hits
  unfolding maybe_sweep
  maybe_sweep-Bounded now l h = elim (Bool-cases (ltb (l.checks_since_sweep + 1) sweep_every)) [
    | inl e ↦ rw e h
    | inr e ↦ rw e (sweep-Bounded now now l.hits h)
  ]

  lookup-Bounded :
      (now : ℕ) (key : String) (d : Dict (List ℕ)) {hs : List ℕ}
      → Bounded now d
      → lookup key d ≡ some hs
      → Fits now key hs
  unfolding lookup
  lookup-Bounded now key [] h e = cc
  lookup-Bounded now key ((k, old) ∷ d) {hs} (here, later) e = elim (Bool-cases (k == key)) [
    | inl same ↦
        let one : old ≡ hs = ground arith in
        let name : k ≡ key = (eq_iff k key).0 same in
        subst (Fits now key) one (subst (λ j. Fits now j old) name here)
    | inr other ↦ lookup-Bounded now key d later (rw other at e)
  ]

  hits_of-Bounded :
      (now : ℕ) (key : String) (l : Limiter) → Bounded now l.hits → Fits now key (hits_of key l)
  unfolding hits_of
  hits_of-Bounded now key l h = elim (Option-cases (lookup key l.hits)) [
    | inl e ↦ rw (e, hits_of) (omega arith, tt)
    | inr (hs, e) ↦ rw (e, hits_of) (lookup-Bounded now key l.hits h e)
  ]

-- Dropping from the front keeps the bound and the moments.
expire-le :
    (now window limit : ℕ) (hs : List ℕ) → length hs ≤ limit → length (expire now window hs) ≤ limit
unfolding expire
expire-le now window limit [] h = h
expire-le now window limit (x ∷ hs) h = ground (arith, expire-le now window limit hs)

expire-All :
    (now window bound : ℕ) (hs : List ℕ)
    → All (λ (x : ℕ). x ≤ bound) hs
    → All (λ (x : ℕ). x ≤ bound) (expire now window hs)
unfolding expire
expire-All now window bound [] h = tt
expire-All now window bound (x ∷ hs) (here, later) = elim (Bool-cases (leb (x + window) now)) [
  | inl e ↦ rw e (expire-All now window bound hs later)
  | inr e ↦ rw e (here, later)
]

wait_of-le :
    (now : ℕ) (policy : RateLimitPolicy) (hs : List ℕ)
    → All (λ (x : ℕ). x ≤ now) hs
    → wait_of now policy hs ≤ policy.window
wait_of-le now policy [] h = omega arith
wait_of-le now policy (x ∷ hs) (here, later) = omega arith

module _ (policy_of : String → RateLimitPolicy) where
  -- What a check reads of its key, when some time has passed.
  expired-Fits :
      (now later : ℕ) (key : String) (l : Limiter)
      → now ≤ later
      → Bounded policy_of now l.hits
      → Fits policy_of later key (expire later (policy_of key).window (hits_of key l))
  expired-Fits now later key l order h =
      let (few, past) =
        hits_of-Bounded policy_of later key l (Bounded-le policy_of now later l.hits order h) in
      (
        expire-le later (policy_of key).window (policy_of key).limit (hits_of key l) few,
        expire-All later (policy_of key).window later (hits_of key l) past,
      )

  All-snoc :
      (now : ℕ) (hs : List ℕ)
      → All (λ (h : ℕ). h ≤ now) hs
      → All (λ (h : ℕ). h ≤ now) (hs ++ now ∷ [])
  All-snoc now [] h = (omega arith, tt)
  All-snoc now (x ∷ hs) (here, later) = (here, All-snoc now hs later)

  check-Bounded :
      (now later : ℕ) (key : String) (l : Limiter)
      → now ≤ later
      → Bounded policy_of now l.hits
      → Bounded policy_of later (check later key (policy_of key) l).1.hits
  unfolding check
  check-Bounded now later key l order h =
      let hs = expire later (policy_of key).window (hits_of key l) in
      let (few, past) = expired-Fits now later key l order h in
      let before = Bounded-le policy_of now later l.hits order h in
      elim (Bool-cases (leb (policy_of key).limit (length hs))) [
        | inl full ↦
            rw (full, check) (insert-Bounded policy_of later key hs l.hits (few, past) before)
        | inr room ↦
            rw (room, check)
              (maybe_sweep-Bounded policy_of later
                (record l { hits = insert key (hs ++ later ∷ []) l.hits })
                (insert-Bounded policy_of later key (hs ++ later ∷ []) l.hits
                  (
                    (let size = length-append hs (later ∷ []) in
                        let less = leb-false→lt (policy_of key).limit (length hs) room in
                        omega arith),
                    All-snoc later hs past,
                  )
                  before))
      ]

  Served-Bounded : {now : ℕ} {l : Limiter} → Served policy_of now l → Bounded policy_of now l.hits
  unfolding reset
  Served-Bounded (fresh now) = tt
  Served-Bounded (checked {now} {limiter} later key past order) =
      check-Bounded now later key limiter order (Served-Bounded past)
  Served-Bounded (cleared past) = tt

  refusal_wait :
      (now later : ℕ) (key : String) (l : Limiter)
      → now ≤ later
      → Bounded policy_of now l.hits
      → (check later key (policy_of key) l).0.allowed ≡ false
      → (1 ≤ (check later key (policy_of key) l).0.retry_after)
        × ((check later key (policy_of key) l).0.retry_after ≤ (policy_of key).window / second + 1)
  unfolding check
  refusal_wait now later key l order h refusal =
      let hs = expire later (policy_of key).window (hits_of key l) in
      let (few, past) = expired-Fits now later key l order h in
      let wait = wait_of-le later (policy_of key) hs past in
      elim (Bool-cases (leb (policy_of key).limit (length hs))) [
        | inl full ↦ rw (full, check) (omega arith, omega arith)
        | inr room ↦ cc (rw (room, check) at refusal)
      ]

-- Whatever the history of checks and resets, if each key is always checked under the same policy, no key
-- holds more hits than its own policy's limit. The next check, if it refuses, asks to wait for at least
-- a second and for at most one second more than the window's whole seconds. The clock does not go back.
pub check_bounds :
    (policy_of : String → RateLimitPolicy) {now : ℕ} {limiter : Limiter} (later : ℕ) (key : String)
    → Served policy_of now limiter
    → now ≤ later
    → (length (hits_of key limiter) ≤ (policy_of key).limit)
      × ((check later key (policy_of key) limiter).0.allowed ≡ false
          → (1 ≤ (check later key (policy_of key) limiter).0.retry_after)
            × ((check later key (policy_of key) limiter).0.retry_after
                ≤ (policy_of key).window / second + 1))
check_bounds policy_of {now} {limiter} later key past order =
    let h = Served-Bounded policy_of past in
    (
      (hits_of-Bounded policy_of now key limiter h).0,
      refusal_wait policy_of now later key limiter order h,
    )
