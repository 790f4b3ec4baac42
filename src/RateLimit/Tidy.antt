-- ===== src/RateLimit/Tidy.antt =====
-- What checks and sweeps keep of the stored hits: one entry for each key, in order of time.
use orqent.Base.{
  ℕ, ◌+◌, ◌≤◌, String, List, [], ◌∷◌, ◌++◌, Option, none, some, true, false, ◌==◌, ◌≡◌, ◌⊎◌, inl,
  inr, refl, arith, eq_iff, if◌then◌else◌, leb, is_nil, All, Dict, lookup, has, insert, Bool-cases,
  Option-cases,
}
use orqent.RateLimit.{Limiter, expire, hits_of, is_stale, sweep, max_retention}
use orqent.RateLimit.Window.{SortedFrom, SortedFrom-le, hits_of-insert}

-- No key stands twice, as in every Python dict.
abbrev pub IsDict : Dict (List ℕ) → Type 0
IsDict [] = Unit
IsDict ((key, _) ∷ d) = (has key d ≡ false) × IsDict d

abbrev kept_hits : ℕ → Option (List ℕ) → Option (List ℕ)
kept_hits now none = none
kept_hits now (some hs) = if is_stale now hs then none else some hs

lookup-sweep :
    (now : ℕ) (key : String) (d : Dict (List ℕ))
    → IsDict d
    → lookup key (sweep now d) ≡ kept_hits now (lookup key d)
unfolding sweep lookup
lookup-sweep now key [] h = refl
lookup-sweep now key ((j, hs) ∷ d) h = ground (arith, eq_iff j key, lookup-sweep now key d h.1)

expire-nil : (now window : ℕ) → expire now window [] ≡ []
unfolding expire
expire-nil now window = refl

-- All hits of a stale key have left every window that is no longer than the retention.
expire-stale :
    (now later window : ℕ) (from : ℕ) (hs : List ℕ)
    → window ≤ max_retention
    → now ≤ later
    → SortedFrom from hs
    → is_stale now hs ≡ true
    → (expire later window hs ≡ []) × (is_nil hs ≡ false → from + max_retention ≤ now)
unfolding expire is_stale
expire-stale now later window from [] short order s stale = (refl, λ e. cc)
expire-stale now later window from (h ∷ []) short order s stale = ground arith
expire-stale now later window from (h ∷ j ∷ hs) short order s stale =
    let ih = expire-stale now later window h (j ∷ hs) short order s.1 stale in ground arith

-- What a longer window at an earlier moment has dropped, a shorter one drops later as well.
pub expire-expire :
    (now later wide window : ℕ) (hs : List ℕ)
    → now ≤ later
    → window ≤ wide
    → expire later window (expire now wide hs) ≡ expire later window hs
unfolding expire
expire-expire now later wide window [] order short = refl
expire-expire now later wide window (h ∷ hs) order short =
    ground (arith, expire-expire now later wide window hs order short)

pub expire-SortedFrom :
    (now window from : ℕ) (hs : List ℕ)
    → SortedFrom from hs
    → SortedFrom from (expire now window hs)
unfolding expire
expire-SortedFrom now window from [] s = tt
expire-SortedFrom now window from (h ∷ hs) s = elim (Bool-cases (leb (h + window) now)) [
  | inl e ↦ rw e (SortedFrom-le from h _ s.0 (expire-SortedFrom now window h hs s.1))
  | inr e ↦ rw e s
]

pub expire-past :
    (now window bound : ℕ) (hs : List ℕ)
    → All (λ (x : ℕ). x ≤ bound) hs
    → All (λ (x : ℕ). x ≤ bound) (expire now window hs)
unfolding expire
expire-past now window bound [] h = tt
expire-past now window bound (x ∷ hs) (here, later) = elim (Bool-cases (leb (x + window) now)) [
  | inl e ↦ rw e (expire-past now window bound hs later)
  | inr e ↦ rw e (here, later)
]

past_later :
    (now later : ℕ) (hs : List ℕ)
    → now ≤ later
    → All (λ (x : ℕ). x ≤ now) hs
    → All (λ (x : ℕ). x ≤ later) hs
past_later now later [] order h = tt
past_later now later (x ∷ hs) order (here, rest) = (omega arith, past_later now later hs order rest)

pub SortedFrom-snoc :
    (from now : ℕ) (hs : List ℕ)
    → from ≤ now
    → SortedFrom from hs
    → All (λ (x : ℕ). x ≤ now) hs
    → SortedFrom from (hs ++ now ∷ []) × All (λ (x : ℕ). x ≤ now) (hs ++ now ∷ [])
SortedFrom-snoc from now [] order s h = ((order, tt), (omega arith, tt))
SortedFrom-snoc from now (x ∷ hs) order s (here, later) =
    let (sorted, past) = SortedFrom-snoc x now hs here s.1 later in ((s.0, sorted), (here, past))

has-insert :
    (j key : String) (hs : List ℕ) (d : Dict (List ℕ))
    → has j d ≡ false
    → (key == j) ≡ false
    → has j (insert key hs d) ≡ false
unfolding insert lookup
has-insert j key hs [] h apart = ground arith
has-insert j key hs ((k, old) ∷ d) h apart = ground (arith, has-insert j key hs d)

insert-IsDict :
    (key : String) (hs : List ℕ) (d : Dict (List ℕ)) → IsDict d → IsDict (insert key hs d)
unfolding insert lookup
insert-IsDict key hs [] h = (refl, tt)
insert-IsDict key hs ((k, old) ∷ d) h = elim (Bool-cases (k == key)) [
  | inl e ↦ rw e h
  | inr e ↦
      let apart : (key == k) ≡ false = ground (arith, eq_iff k key, eq_iff key k) in
      rw e (has-insert k key hs d h.0 apart, insert-IsDict key hs d h.1)
]

has-sweep :
    (now : ℕ) (j : String) (d : Dict (List ℕ)) → has j d ≡ false → has j (sweep now d) ≡ false
unfolding sweep lookup
has-sweep now j [] h = refl
has-sweep now j ((k, hs) ∷ d) h = ground (arith, has-sweep now j d)

sweep-IsDict : (now : ℕ) (d : Dict (List ℕ)) → IsDict d → IsDict (sweep now d)
unfolding sweep
sweep-IsDict now [] h = tt
sweep-IsDict now ((k, hs) ∷ d) h = elim (Bool-cases (is_stale now hs)) [
  | inl e ↦ rw e (sweep-IsDict now d h.1)
  | inr e ↦ rw e (has-sweep now k d h.0, sweep-IsDict now d h.1)
]

-- No key stands twice, and the hits of each are in order of time and not in the future.
pub record Tidy (now : ℕ) (l : Limiter) : Type 0 where
  pub dict : IsDict l.hits
  pub sorted : (key : String) → SortedFrom 0 (hits_of key l)
  pub past : (key : String) → All (λ (h : ℕ). h ≤ now) (hits_of key l)

module _ (now later : ℕ) (l : Limiter) where
  pub later-Tidy : now ≤ later → Tidy now l → Tidy later l
  later-Tidy order t = record {
    dict = t.dict;
    sorted = t.sorted;
    past = λ key. past_later now later (hits_of key l) order (t.past key);
  }

-- Keys whose list is replaced.
pub insert-Tidy :
    (now : ℕ) (key : String) (hs : List ℕ) (l : Limiter)
    → SortedFrom 0 hs
    → All (λ (h : ℕ). h ≤ now) hs
    → Tidy now l
    → Tidy now (record l { hits = insert key hs l.hits })
insert-Tidy now key hs l s h t = record {
  dict = insert-IsDict key hs l.hits t.dict;
  sorted = λ other. elim (Bool-cases (key == other)) [
    | inl e ↦ rw (hits_of-insert key other hs l, e) s
    | inr e ↦ rw (hits_of-insert key other hs l, e) (t.sorted other)
  ];
  past = λ other. elim (Bool-cases (key == other)) [
    | inl e ↦ rw (hits_of-insert key other hs l, e) h
    | inr e ↦ rw (hits_of-insert key other hs l, e) (t.past other)
  ];
}

-- The list of a key after a sweep: gone, if all of it has left the longest window.
pub swept_hits :
    (now : ℕ) (key : String) (l : Limiter)
    → Tidy now l
    → (hits_of key (record l { hits = sweep now l.hits }) ≡ hits_of key l)
      ⊎ ((hits_of key (record l { hits = sweep now l.hits }) ≡ [])
          × (expire now max_retention (hits_of key l) ≡ []))
unfolding hits_of
swept_hits now key l t = elim (Option-cases (lookup key l.hits)) [
  | inl e ↦ inl (ground (arith, lookup-sweep now key l.hits t.dict))
  | inr (hs, e) ↦ elim (Bool-cases (is_stale now hs)) [
    | inl stale ↦
        let sorted = rw (e, hits_of) at (t.sorted key) in
        let gone =
          expire-stale now now max_retention 0 hs (omega arith) (omega arith) sorted stale in
        inr (
          ground (arith, lookup-sweep now key l.hits t.dict),
          ground (arith, lookup-sweep now key l.hits t.dict, gone.0),
        )
    | inr kept ↦ inl (ground (arith, lookup-sweep now key l.hits t.dict))
  ]
]

pub sweep-Tidy :
    (now : ℕ) (l : Limiter) → Tidy now l → Tidy now (record l { hits = sweep now l.hits })
sweep-Tidy now l t = record {
  dict = sweep-IsDict now l.hits t.dict;
  sorted = λ key. elim (swept_hits now key l t) [
    | inl same ↦ rw same (t.sorted key)
    | inr (gone, _) ↦ rw gone tt
  ];
  past = λ key. elim (swept_hits now key l t) [
    | inl same ↦ rw same (t.past key)
    | inr (gone, _) ↦ rw gone tt
  ];
}

-- What a sweep drops has left the longest window.
pub swept_recent :
    (now : ℕ) (key : String) (l : Limiter)
    → Tidy now l
    → expire now max_retention (hits_of key (record l { hits = sweep now l.hits }))
      ≡ expire now max_retention (hits_of key l)
unfolding expire
swept_recent now key l t = elim (swept_hits now key l t) [
  | inl same ↦ rw same refl
  | inr (gone, left) ↦ rw (gone, left) refl
]
