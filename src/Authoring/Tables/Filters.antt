-- ===== src/Authoring/Tables/Filters.antt =====
-- Filters of lists of rows.
use orqent.Base.{
  List, [], ◌∷◌, ◌++◌, Bool, true, false, not, filter, All, ◌≡◌, refl, ap, inl, inr, Bool-cases,
}

-- A filter of all, of none, and of those that pass another one.
pub filter-all :
    {A : Type 0} (p : A → Bool) (xs : List A) → All (λ a. p a ≡ true) xs → filter p xs ≡ xs
filter-all p [] h = refl
filter-all p (x ∷ xs) (here, later) = rw here (ap (λ rest. x ∷ rest) (filter-all p xs later))

pub filter-none :
    {A : Type 0} (p : A → Bool) (xs ys : List A)
    → All (λ a. p a ≡ false) xs
    → filter p (ys ++ xs) ≡ filter p ys
filter-none p [] [] h = refl
filter-none p (x ∷ xs) [] (here, later) = rw here (filter-none p xs [] later)
filter-none p xs (y ∷ ys) h = elim (Bool-cases (p y)) [
  | inl e ↦ rw e (ap (λ rest. y ∷ rest) (filter-none p xs ys h))
  | inr e ↦ rw e (filter-none p xs ys h)
]

pub filter-replaced :
    {A : Type 0} (p : A → Bool) (xs new : List A)
    → filter p (filter (λ a. not (p a)) xs ++ new) ≡ filter p new
filter-replaced p [] new = refl
filter-replaced p (x ∷ xs) new = elim (Bool-cases (p x)) [
  | inl e ↦ rw e (filter-replaced p xs new)
  | inr e ↦ rw (e, e) (filter-replaced p xs new)
]

pub filter-filter :
    {A : Type 0} (p q : A → Bool) (xs : List A)
    → ((a : A) → p a ≡ true → q a ≡ true)
    → filter p (filter q xs) ≡ filter p xs
filter-filter p q [] h = refl
filter-filter p q (x ∷ xs) h = elim (Bool-cases (p x)) [
  | inl e ↦ rw (h x e, e) (ap (λ rest. x ∷ rest) (filter-filter p q xs h))
  | inr e ↦ elim (Bool-cases (q x)) [
    | inl f ↦ rw (f, e) (filter-filter p q xs h)
    | inr f ↦ rw (f, e) (filter-filter p q xs h)
  ]
]

pub All-concat :
    {A : Type 0} (P : A → Type 0) (xs ys : List A) → All P xs → All P ys → All P (xs ++ ys)
All-concat P [] ys h k = k
All-concat P (x ∷ xs) ys (here, later) k = (here, All-concat P xs ys later k)

-- What is kept passes.
pub All-kept :
    {A : Type 0} (keep : A → Bool) (xs : List A) → All (λ a. keep a ≡ true) (filter keep xs)
All-kept keep [] = tt
All-kept keep (x ∷ xs) = elim (Bool-cases (keep x)) [
  | inl e ↦ rw e (e, All-kept keep xs)
  | inr e ↦ rw e (All-kept keep xs)
]

pub All-both :
    {A : Type 0} (P R : A → Type 0) (xs : List A) → All P xs → All R xs → All (λ a. P a × R a) xs
All-both P R [] h k = tt
All-both P R (x ∷ xs) (h, hs) (k, ks) = ((h, k), All-both P R xs hs ks)

pub All-filter :
    {A : Type 0} (P : A → Type 0) (keep : A → Bool) (xs : List A)
    → All P xs
    → All P (filter keep xs)
All-filter P keep [] h = tt
All-filter P keep (x ∷ xs) (here, later) = elim (Bool-cases (keep x)) [
  | inl e ↦ rw e (here, All-filter P keep xs later)
  | inr e ↦ rw e (All-filter P keep xs later)
]
