-- ===== src/RateLimit/Sweep.antt =====
-- The sweep of stale keys changes no later decision.
use orqent.Base.{
  ℕ, ◌+◌, ◌≤◌, String, List, [], ◌∷◌, ◌++◌, true, ◌==◌, ◌≡◌, inl, inr, refl, sym, ap, ◌∙◌, arith,
  if◌then◌else◌, ltb, leb, length, All, lookup, insert, Bool-cases,
}
use mathlib.Core.Path.{subst}
use orqent.RateLimit.{
  RateLimitPolicy, Decision, Limiter, expire, hits_of, sweep, sweep_every, maybe_sweep, check,
  reset, max_retention, refused,
}
use orqent.RateLimit.Histories.{Served, fresh, checked, cleared, Call, decisions, Orderly}
use orqent.RateLimit.Window.{SortedFrom, hits_of-insert}
use orqent.RateLimit.Tidy.{
  Tidy, expire-expire, expire-SortedFrom, expire-past, SortedFrom-snoc, later-Tidy, insert-Tidy,
  sweep-Tidy, swept_recent,
}

-- The hits of a key that are left when it is checked.
abbrev left_over : ℕ → String → ℕ → Limiter → List ℕ
left_over now key window l = expire now window (hits_of key l)

abbrev decide : ℕ → RateLimitPolicy → List ℕ → Decision
decide now policy hs =
    if leb policy.limit (length hs)
    then refused now policy hs
    else record { allowed = true; retry_after = 0 }

-- The limiter after a check whose expired hits are `hs`.
abbrev after : ℕ → String → RateLimitPolicy → List ℕ → Limiter → Limiter
after now key policy hs l =
    if leb policy.limit (length hs)
    then record l { hits = insert key hs l.hits }
    else maybe_sweep now (record l { hits = insert key (hs ++ now ∷ []) l.hits })

check_parts :
    (now : ℕ) (key : String) (policy : RateLimitPolicy) (l : Limiter)
    → ((check now key policy l).0 ≡ decide now policy (left_over now key policy.window l))
      × ((check now key policy l).1 ≡ after now key policy (left_over now key policy.window l) l)
unfolding check
check_parts now key policy l =
    elim (Bool-cases (leb policy.limit (length (left_over now key policy.window l)))) [
      | inl full ↦ (rw (full, check) refl, rw (full, check) refl)
      | inr room ↦ (rw (room, check) refl, rw (room, check) refl)
    ]

maybe_sweep-kept :
    (now : ℕ) (l : Limiter)
    → Tidy now l
    → Tidy now (maybe_sweep now l)
      × ((key : String)
          → left_over now key max_retention (maybe_sweep now l) ≡ left_over now key max_retention l)
unfolding maybe_sweep hits_of
maybe_sweep-kept now l t = elim (Bool-cases (ltb (l.checks_since_sweep + 1) sweep_every)) [
  | inl e ↦
      rw (e, maybe_sweep) (record { dict = t.dict; sorted = t.sorted; past = t.past }, λ key. refl)
  | inr e ↦
      let swept = sweep-Tidy now l t in
      rw (e, maybe_sweep)
        (
          record { dict = swept.dict; sorted = swept.sorted; past = swept.past },
          λ key. swept_recent now key l t,
        )
]

-- Two limiters that differ only in hits older than any window.
record Agree (now : ℕ) (l m : Limiter) : Type 0 where
  left : Tidy now l
  right : Tidy now m
  recent : (key : String) → left_over now key max_retention l ≡ left_over now key max_retention m

module _ (now later : ℕ) (key : String) (policy : RateLimitPolicy) (order : now ≤ later) where
  told :
      (l : Limiter) (hs : List ℕ) (other : String)
      → left_over later other max_retention (record l { hits = insert key hs l.hits }) ≡ (
          if key == other
          then expire later max_retention hs
          else left_over later other max_retention l)
  told l hs other = elim (Bool-cases (key == other)) [
    | inl e ↦ rw (hits_of-insert key other hs l, e) refl
    | inr e ↦ rw (hits_of-insert key other hs l, e) refl
  ]

  -- A limiter after a check is tidy, and the recent hits of each key are told by `hs`.
  after_kept :
      (l : Limiter) (hs : List ℕ)
      → hs ≡ left_over later key policy.window l
      → Tidy now l
      → Tidy later (after later key policy hs l)
        × ((other : String)
            → left_over later other max_retention (after later key policy hs l) ≡ (
                if key == other
                then expire later max_retention
                    (if leb policy.limit (length hs) then hs else hs ++ later ∷ [])
                else left_over later other max_retention l))
  after_kept l hs e t =
      let t' = later-Tidy now later l order t in
      let sorted =
        subst (SortedFrom 0) (sym e)
          (expire-SortedFrom later policy.window 0 (hits_of key l) (t'.sorted key)) in
      let past =
        subst (λ xs. All (λ (x : ℕ). x ≤ later) xs) (sym e)
          (expire-past later policy.window later (hits_of key l) (t'.past key)) in
      elim (Bool-cases (leb policy.limit (length hs))) [
        | inl full ↦ rw full (insert-Tidy later key hs l sorted past t', told l hs)
        | inr room ↦
            let (sorted', past') = SortedFrom-snoc 0 later hs (omega arith) sorted past in
            let grown = record l { hits = insert key (hs ++ later ∷ []) l.hits } in
            let (tidy, kept) =
              maybe_sweep-kept later grown
                (insert-Tidy later key (hs ++ later ∷ []) l sorted' past' t') in
            rw room (tidy, λ other. kept other ∙ told l (hs ++ later ∷ []) other)
      ]

module _ (now later : ℕ) (key : String) (policy : RateLimitPolicy) (order : now ≤ later)
    (short : policy.window ≤ max_retention) where
  -- What is left of the checked key is the same in two limiters that agree.
  same_left :
      (l m : Limiter)
      → Agree now l m
      → left_over later key policy.window l ≡ left_over later key policy.window m
  same_left l m a =
      sym (expire-expire now later max_retention policy.window (hits_of key l) order short)
      ∙ (ap (expire later policy.window) (a.recent key)
          ∙ expire-expire now later max_retention policy.window (hits_of key m) order short)

  wide_left :
      (l : Limiter) (other : String)
      → expire later max_retention (left_over now other max_retention l)
        ≡ left_over later other max_retention l
  wide_left l other =
      expire-expire now later max_retention max_retention (hits_of other l) order (omega arith)

  -- A check decides alike on both, and they agree afterwards.
  check-Agree :
      (l m : Limiter)
      → Agree now l m
      → ((check later key policy l).0 ≡ (check later key policy m).0)
        × Agree later (check later key policy l).1 (check later key policy m).1
  check-Agree l m a =
      let hs = left_over later key policy.window l in
      let same = same_left l m a in
      let (decided, next) = check_parts later key policy l in
      let (decided', next') = check_parts later key policy m in
      let (tidy, recent) = after_kept now later key policy order l hs refl a.left in
      let (tidy', recent') = after_kept now later key policy order m hs same a.right in
      let moved = next' ∙ ap (λ xs. after later key policy xs m) (sym same) in
      let agreed : (other : String)
          → left_over later other max_retention l ≡ left_over later other max_retention m =
        λ other.
          sym (wide_left l other)
          ∙ (ap (expire later max_retention) (a.recent other) ∙ wide_left m other) in
      (
        decided ∙ (ap (decide later policy) same ∙ sym decided'),
        record {
          left = subst (Tidy later) (sym next) tidy;
          right = subst (Tidy later) (sym moved) tidy';
          recent = λ other.
              ap (left_over later other max_retention) next
              ∙ (recent other
                  ∙ (ap
                        (λ xs.
                          if key == other
                          then expire later max_retention
                              (if leb policy.limit (length hs) then hs else hs ++ later ∷ [])
                          else xs)
                        (agreed other)
                      ∙ (sym (recent' other)
                          ∙ sym (ap (left_over later other max_retention) moved))));
        },
      )

decisions-Agree :
    (now : ℕ) (calls : List Call) (l m : Limiter)
    → Agree now l m
    → Orderly now calls
    → decisions calls l ≡ decisions calls m
decisions-Agree now [] l m a orderly = refl
decisions-Agree now (call ∷ calls) l m a (order, short, rest) =
    let (same, next) = check-Agree now call.moment call.key call.policy order short l m a in
    let later = decisions-Agree call.moment calls _ _ next rest in
    ap (λ d. d ∷ decisions calls (check call.moment call.key call.policy l).1) same
    ∙ ap (λ ds. (check call.moment call.key call.policy m).0 ∷ ds) later

Served-Tidy :
    (policy_of : String → RateLimitPolicy) {now : ℕ} {l : Limiter}
    → Served policy_of now l
    → Tidy now l
unfolding reset hits_of lookup
Served-Tidy policy_of (fresh now) = record { dict = tt; sorted = λ key. tt; past = λ key. tt }
Served-Tidy policy_of (checked {now} {limiter} later key past order) =
    let before = Served-Tidy policy_of past in
    let (_, next) = check_parts later key (policy_of key) limiter in
    subst (Tidy later) (sym next)
      (after_kept now later key (policy_of key) order limiter
        (left_over later key (policy_of key).window limiter) refl before).0
Served-Tidy policy_of (cleared past) = record { dict = tt; sorted = λ key. tt; past = λ key. tt }

-- After any history of checks and resets, a sweep changes none of the decisions on the requests that
-- follow, however many there are and on whatever keys, as long as they come in order of time, none before
-- the sweep, and under windows of at most an hour. In the history before, each key is checked under one
-- policy and the clock does not go back.
pub sweep_forgets_nothing :
    (policy_of : String → RateLimitPolicy) {now : ℕ} {limiter : Limiter} (later : ℕ)
    (calls : List Call)
    → Served policy_of now limiter
    → now ≤ later
    → Orderly later calls
    → decisions calls (record limiter { hits = sweep later limiter.hits }) ≡ decisions calls limiter
sweep_forgets_nothing policy_of {now} {limiter} later calls past order orderly =
    let t = later-Tidy now later limiter order (Served-Tidy policy_of past) in
    decisions-Agree later calls _ _
      (record {
        left = sweep-Tidy later limiter t;
        right = t;
        recent = λ key. swept_recent later key limiter t;
      })
      orderly
