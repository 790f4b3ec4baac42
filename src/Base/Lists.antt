-- ===== src/Base/Lists.antt =====
-- Lists under native lengths and Boolean tests: comprehensions, `any`, `all` and `in`.
use Prim.Native.Nat.{ℕ, zero, suc, ◌+◌}
use Prim.Native.String.{String}
use mathlib.Core.Path.{◌≡◌, refl, ap}
use mathlib.Core.Logic.{◌⊎◌, ◌≢◌, inl, inr, ◌↔◌}
use mathlib.Core.Bool.{Bool, true, false, ◌&&◌, ◌||◌}
use mathlib.Core.Option.{Option, none, some}
use mathlib.Core.List.{List, [], ◌∷◌, ◌++◌, map}
use native.Mathlib.Omega.{arith}
use text.Mathlib.Text.{◌==◌}
use text.Mathlib.TextEquality.{eq_iff}
use orqent.Base.Tests.{if◌then◌else◌, Bool-cases}

module _ {ℓ} {A : Type ℓ} where
  abbrev pub length : List A → ℕ
  length [] = 0
  length (x ∷ xs) = suc (length xs)

  abbrev pub get_elem? : List A → ℕ → Option A
  get_elem? [] i = none
  get_elem? (x ∷ xs) zero = some x
  get_elem? (x ∷ xs) (suc i) = get_elem? xs i

  abbrev pub take : ℕ → List A → List A
  take zero xs = []
  take (suc n) [] = []
  take (suc n) (x ∷ xs) = x ∷ take n xs

  abbrev pub drop : ℕ → List A → List A
  drop zero xs = xs
  drop (suc n) [] = []
  drop (suc n) (x ∷ xs) = drop n xs

  -- `[x for x in xs if p(x)]`
  abbrev pub filter : (A → Bool) → List A → List A
  filter p [] = []
  filter p (x ∷ xs) = if p x then x ∷ filter p xs else filter p xs

  abbrev pub any : (A → Bool) → List A → Bool
  any p [] = false
  any p (x ∷ xs) = p x || any p xs

  abbrev pub all : (A → Bool) → List A → Bool
  all p [] = true
  all p (x ∷ xs) = p x && all p xs

  abbrev pub All {κ} : (A → Type κ) → List A → Type κ
  All P [] = Unit
  All P (x ∷ xs) = P x × All P xs

  abbrev pub is_nil : List A → Bool
  is_nil [] = true
  is_nil (_ ∷ _) = false

  pub length-append : (xs ys : List A) → length (xs ++ ys) ≡ length xs + length ys
  length-append [] ys = omega arith
  length-append (x ∷ xs) ys = omega (arith, length-append xs ys)

  pub List-cases : (xs : List A) → (xs ≡ []) ⊎ ((x : A) × (rest : List A) × (xs ≡ x ∷ rest))
  List-cases [] = inl refl
  List-cases (x ∷ xs) = inr (x, xs, refl)

pub length-map {ℓ κ} :
    {A : Type ℓ} {B : Type κ} (f : A → B) (xs : List A) → length (map f xs) ≡ length xs
length-map f [] = refl
length-map f (x ∷ xs) = ap suc (length-map f xs)

-- `key in keys`
abbrev pub mem : String → List String → Bool
mem k [] = false
mem k (x ∷ xs) = k == x || mem k xs

-- Membership by recursion: it computes to the alternatives that the tactics read.
abbrev pub In : {A : Type 0} → A → List A → Type 0
In a [] = ⊥
In a (x ∷ xs) = (a ≡ x) ⊎ In a xs

pub mem→In : (k : String) (ks : List String) → mem k ks ≡ true → In k ks
mem→In k [] h = cc
mem→In k (x ∷ xs) h = ground (arith, eq_iff k x, mem→In k xs)

pub In→mem : (k : String) (ks : List String) → In k ks → mem k ks ≡ true
In→mem k [] h = absurd h
In→mem k (x ∷ xs) h = ground (arith, eq_iff k x, In→mem k xs)

module _ {A : Type 0} (p : A → Bool) where
  -- A comprehension keeps exactly the items that pass.
  pub In-filter : (a : A) (xs : List A) → In a (filter p xs) ↔ (In a xs × (p a ≡ true))
  In-filter a [] = (λ h. absurd h, λ h. absurd h.0)
  In-filter a (x ∷ xs) = elim (Bool-cases (p x)) [
    | inl e ↦ ground (arith, In-filter a xs)
    | inr e ↦ ground (arith, In-filter a xs)
  ]

  pub all_of_In : (a : A) (xs : List A) → all p xs ≡ true → In a xs → p a ≡ true
  all_of_In a [] h m = absurd m
  all_of_In a (x ∷ xs) h m = ground (arith, all_of_In a xs)

module _ {A : Type 0} where
  pub In-append : (a : A) (xs ys : List A) → In a (xs ++ ys) ↔ (In a xs ⊎ In a ys)
  In-append a [] ys = (inr, λ h. elim h [ inl e ↦ absurd e | inr m ↦ m ])
  In-append a (x ∷ xs) ys = ground (arith, In-append a xs ys)

  -- A constructor's image: membership goes through where the constructor is injective.
  pub In-map :
      {B : Type 0} (f : A → B) (g : B → Option A)
      → ((a : A) → g (f a) ≡ some a)
      → (a : A) (xs : List A) → In (f a) (map f xs) ↔ In a xs
  In-map f g inv a [] = (λ h. h, λ h. h)
  In-map f g inv a (x ∷ xs) = ground (arith, inv a, inv x, In-map f g inv a xs)

  pub not-In-map :
      {B : Type 0} (f : A → B) (b : B) → ((a : A) → b ≢ f a) → (xs : List A) → ¬ In b (map f xs)
  not-In-map f b other [] h = h
  not-In-map f b other (x ∷ xs) (inl e) = other x e
  not-In-map f b other (x ∷ xs) (inr m) = not-In-map f b other xs m
