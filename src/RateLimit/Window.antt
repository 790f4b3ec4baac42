-- ===== src/RateLimit/Window.antt =====
-- What the window promises: an exact count, and a `retry_after` after which the request is let in.
use orqent.Base.{
  ℕ, suc, ◌+◌, ◌*◌, ◌≤◌, ◌<◌, String, List, [], ◌∷◌, true, false, ◌==◌, ◌≡◌, ◌↔◌, inl, inr, refl,
  ap, arith, eq_iff, if◌then◌else◌, leb, length, insert, lookup-insert, Bool-cases, leb→le,
  List-cases,
}
use orqent.RateLimit.{second, RateLimitPolicy, Limiter, expire, hits_of, check, refused}

-- Oldest first, none before `from`.
abbrev pub SortedFrom : ℕ → List ℕ → Type 0
SortedFrom from [] = Unit
SortedFrom from (h ∷ hs) = (from ≤ h) × SortedFrom h hs

-- How many hits lie inside the window that ends now.
abbrev pub within : (now window : ℕ) → List ℕ → ℕ
within now window [] = 0
within now window (h ∷ hs) =
    if leb (h + window) now then within now window hs else suc (within now window hs)

pub SortedFrom-le : (a b : ℕ) (hs : List ℕ) → a ≤ b → SortedFrom b hs → SortedFrom a hs
SortedFrom-le a b [] h s = tt
SortedFrom-le a b (x ∷ hs) h s = (omega arith, s.1)

within-recent :
    (now window h : ℕ) (hs : List ℕ)
    → now < h + window
    → SortedFrom h hs
    → within now window hs ≡ length hs
within-recent now window h [] later s = refl
within-recent now window h (x ∷ hs) later s = ground (arith, within-recent now window x hs)

-- Dropping from the front leaves exactly the hits inside the window.
length-expire :
    (now window from : ℕ) (hs : List ℕ)
    → SortedFrom from hs
    → length (expire now window hs) ≡ within now window hs
unfolding expire
length-expire now window from [] s = refl
length-expire now window from (h ∷ hs) s =
    ground (arith, length-expire now window h hs, within-recent now window h hs)

-- On hits in order of time a check allows a request exactly when fewer than `limit` recorded hits
-- of the key lie inside the window that ends now.
pub check_counts :
    (now from : ℕ) (key : String) (policy : RateLimitPolicy) (limiter : Limiter)
    → SortedFrom from (hits_of key limiter)
    → ((check now key policy limiter).0.allowed ≡ true)
      ↔ (within now policy.window (hits_of key limiter) < policy.limit)
unfolding check
check_counts now from key policy limiter s =
    ground (arith, length-expire now policy.window from (hits_of key limiter) s)

length-expire-le : (now window : ℕ) (hs : List ℕ) → length (expire now window hs) ≤ length hs
unfolding expire
length-expire-le now window [] = omega arith
length-expire-le now window (h ∷ hs) = ground (arith, length-expire-le now window hs)

pub hits_of-insert :
    (key other : String) (hs : List ℕ) (l : Limiter)
    → hits_of other (record l { hits = insert key hs l.hits })
      ≡ (if key == other then hs else hits_of other l)
unfolding hits_of
hits_of-insert key other hs l = ground (arith, lookup-insert key other hs l.hits)

-- After a refusal the key's list is the expired one.
expire-longer :
    (now later window : ℕ) (hs : List ℕ) (h : ℕ) (rest : List ℕ)
    → expire now window hs ≡ h ∷ rest
    → h + window ≤ later
    → length (expire later window (h ∷ rest)) ≤ length rest
unfolding expire
expire-longer now later window hs h rest e due = ground (arith, length-expire-le later window rest)

module _ (now : ℕ) (key : String) (policy : RateLimitPolicy) (limiter : Limiter) where
  abbrev left_over : List ℕ
  left_over = expire now policy.window (hits_of key limiter)

  check-refused :
      (check now key policy limiter).0.allowed ≡ false
      → (policy.limit ≤ length left_over)
        × (check now key policy limiter ≡ (
          refused now policy left_over,
          record limiter { hits = insert key left_over limiter.hits },
        ))
  unfolding check
  check-refused h = elim (Bool-cases (leb policy.limit (length left_over))) [
    | inl full ↦ (leb→le policy.limit (length left_over) full, rw (full, check))
    | inr room ↦ cc (rw (room, check) at h)
  ]

  check-allowed_of_room :
      length left_over < policy.limit → (check now key policy limiter).0.allowed ≡ true
  unfolding check
  check-allowed_of_room h = ground arith

-- Whoever is refused on a key that holds at most `limit` hits and comes back no sooner than
-- `retry_after` seconds later, with no other request on the key between, is allowed, provided the
-- limit is at least 1.
pub retry_after_suffices :
    (now later : ℕ) (key : String) (policy : RateLimitPolicy) (limiter : Limiter)
    → 0 < policy.limit
    → length (hits_of key limiter) ≤ policy.limit
    → (check now key policy limiter).0.allowed ≡ false
    → now + (check now key policy limiter).0.retry_after * second ≤ later
    → (check later key policy (check now key policy limiter).1).0.allowed ≡ true
retry_after_suffices now later key policy limiter pos few no_go due =
    let old = hits_of key limiter in
    let (full, same) = check-refused now key policy limiter no_go in
    let short : length (expire now policy.window old) ≤ length old =
      length-expire-le now policy.window old in
    elim (List-cases (expire now policy.window old)) [
      | inl e ↦ absurd (omega (arith, ap length e))
      | inr (h, rest, e) ↦
          let due' = rw (same, e) at due in
          rw same (
            check-allowed_of_room later key policy _ (
              rw (hits_of-insert key key _ limiter, (eq_iff key key).1 refl, e)
                (omega (
                  arith,
                  ap length e,
                  expire-longer now later policy.window old h rest e (omega arith),
                ))))
    ]
