-- ===== src/Base/Lists.antt =====
-- Lists measured by native numbers, and searched by a test.
use Prim.Native.Nat.{ℕ, zero, suc}
use Prim.Native.String.{String}
use mathlib.Core.Path.{◌≡◌, refl, subst}
use mathlib.Core.Logic.{◌⊎◌, inl, inr}
use mathlib.Core.Bool.{Bool, true, false, ◌&&◌, ◌||◌}
use mathlib.Core.List.{List, [], ◌∷◌}
use mathlib.Core.Option.{Option, none, some}
use native.Mathlib.Omega.{arith}
use text.Mathlib.TextEquality.{eq_iff}
use wattanman.Base.Tests.{if◌then◌else◌, str_eq, Bool-cases}

-- No element of the empty list.
pub data Never {ℓ} : Type ℓ where

module _ {ℓ} {A : Type ℓ} where
  abbrev pub length : List A → ℕ
  length [] = 0
  length (x ∷ xs) = suc (length xs)

  abbrev pub take : ℕ → List A → List A
  take zero xs = []
  take (suc n) [] = []
  take (suc n) (x ∷ xs) = x ∷ take n xs

  -- `xs[0]`
  abbrev pub head? : List A → Option A
  head? [] = none
  head? (x ∷ xs) = some x

  -- `xs.filter(p)`, `xs.some(p)`, `xs.every(p)` and `xs.find(p)`
  unfoldable pub filter : (A → Bool) → List A → List A
  filter p [] = []
  filter p (x ∷ xs) = let rest = filter p xs in if p x then x ∷ rest else rest

  unfoldable pub any : (A → Bool) → List A → Bool
  any p [] = false
  any p (x ∷ xs) = p x || any p xs

  unfoldable pub all : (A → Bool) → List A → Bool
  all p [] = true
  all p (x ∷ xs) = p x && all p xs

  unfoldable pub find : (A → Bool) → List A → Option A
  find p [] = none
  find p (x ∷ xs) = let rest = find p xs in if p x then some x else rest

  abbrev pub is_empty : List A → Bool
  is_empty [] = true
  is_empty (x ∷ xs) = false

  -- What holds of every element, and membership, by recursion on the list.
  abbrev pub All {κ} : (A → Type κ) → List A → Type κ
  All P [] = Unit
  All P (x ∷ xs) = P x × All P xs

  abbrev pub In : A → List A → Type ℓ
  In a [] = Never
  In a (x ∷ xs) = (x ≡ a) ⊎ In a xs

-- `xs.includes(s)`
abbrev pub includes : List String → String → Bool
includes xs s = any (λ x. str_eq x s) xs

module _ {ℓ} {A : Type ℓ} where
  pub filter-All : (p : A → Bool) (xs : List A) → All (λ a. p a ≡ true) (filter p xs)
  unfolding filter
  filter-All p [] = tt
  filter-All p (x ∷ xs) = ground (arith, filter-All p xs)

  pub filter_complete :
      (p : A → Bool) (a : A) (xs : List A) → In a xs → p a ≡ true → In a (filter p xs)
  unfolding filter
  filter_complete p a [] h e = elim h [ ]
  filter_complete p a (x ∷ xs) (inl q) e = rw (q, e, filter) (inl refl)
  filter_complete p a (x ∷ xs) (inr m) e = elim (Bool-cases (p x)) [
    | inl t ↦ rw (t, filter) (inr (filter_complete p a xs m e))
    | inr t ↦ rw (t, filter) (filter_complete p a xs m e)
  ]

  pub find-In : (p : A → Bool) (a : A) (xs : List A) → find p xs ≡ some a → In a xs × (p a ≡ true)
  unfolding find
  find-In p a [] h = cc
  find-In p a (x ∷ xs) h = elim (Bool-cases (p x)) [
    | inl t ↦ ground arith
    | inr t ↦ let (m, e) = find-In p a xs (ground arith) in (inr m, e)
  ]

  pub find-none : (p : A → Bool) (xs : List A) → find p xs ≡ none → All (λ a. p a ≡ false) xs
  unfolding find
  find-none p [] h = tt
  find-none p (x ∷ xs) h = ground (arith, find-none p xs)

  pub any-none : (p : A → Bool) (xs : List A) → any p xs ≡ false → (a : A) → In a xs → p a ≡ false
  unfolding any
  any-none p [] h a m = elim m [ ]
  any-none p (x ∷ xs) h a (inl e) = rw (← e) (ground arith)
  any-none p (x ∷ xs) h a (inr m) = any-none p xs (ground arith) a m

pub empty-In {ℓ} : {A : Type ℓ} (xs : List A) (a : A) → is_empty xs ≡ true → ¬ In a xs
empty-In [] a h m = elim m [ ]
empty-In (x ∷ xs) a h m = absurd (ground arith)

module _ {ℓ κ} {A : Type ℓ} (P : A → Type κ) where
  pub All-In : (xs : List A) → All P xs → (a : A) → In a xs → P a
  All-In [] h a m = elim m [ ]
  All-In (x ∷ xs) h a (inl e) = subst P e h.0
  All-In (x ∷ xs) h a (inr m) = All-In xs h.1 a m

module _ {ℓ} {A : Type ℓ} where
  pub filter-In : (p : A → Bool) (a : A) (xs : List A) → In a (filter p xs) → In a xs × (p a ≡ true)
  unfolding filter
  filter-In p a [] h = elim h [ ]
  filter-In p a (x ∷ xs) h = elim (Bool-cases (p x)) [
    | inr f ↦ let (m, e) = filter-In p a xs (rw (f, filter) at h) in (inr m, e)
    | inl t ↦ filter-In_cons (rw (t, filter) at h) t (filter-In p a xs)
  ]
    where
      filter-In_cons :
          In a (x ∷ filter p xs)
          → p x ≡ true
          → (In a (filter p xs) → In a xs × (p a ≡ true))
          → In a (x ∷ xs) × (p a ≡ true)
      filter-In_cons (inl e) t ih = (inl e, subst (λ y. p y ≡ true) e t)
      filter-In_cons (inr m) t ih = let (m', e) = ih m in (inr m', e)

  pub filter-is_empty :
      (p : A → Bool) (xs : List A) → is_empty (filter p xs) ≡ true → (a : A) → In a xs → p a ≡ false
  unfolding filter
  filter-is_empty p [] h a m = elim m [ ]
  filter-is_empty p (x ∷ xs) h a (inl e) = subst (λ y. p y ≡ false) e (ground arith)
  filter-is_empty p (x ∷ xs) h a (inr m) = filter-is_empty p xs (ground arith) a m

pub includes-In : (xs : List String) (s : String) → includes xs s ≡ true → In s xs
unfolding any
includes-In [] s h = absurd (ground arith)
includes-In (x ∷ xs) s h = elim (Bool-cases (str_eq x s)) [
  | inl t ↦ inl ((eq_iff x s).0 t)
  | inr f ↦ inr (includes-In xs s (ground arith))
]

pub In-includes : (xs : List String) (s : String) → In s xs → includes xs s ≡ true
unfolding any
In-includes [] s m = elim m [ ]
In-includes (x ∷ xs) s (inl e) = ground (arith, eq_iff x s)
In-includes (x ∷ xs) s (inr m) = ground (arith, In-includes xs s m)

pub filter-all {ℓ} :
    {A : Type ℓ} (q p : A → Bool) (xs : List A) → all q xs ≡ true → all q (filter p xs) ≡ true
unfolding filter all
filter-all q p [] t = refl
filter-all q p (x ∷ xs) t = ground (arith, filter-all q p xs)

pub find-all {ℓ} :
    {A : Type ℓ} (q p : A → Bool) (x : A) (xs : List A)
    → all q xs ≡ true
    → find p xs ≡ some x
    → q x ≡ true
unfolding find all
find-all q p x [] t h = absurd (ground arith)
find-all q p x (y ∷ xs) t h = elim (Bool-cases (p y)) [
  | inl z ↦ let e : y ≡ x = ground arith in subst (λ w. q w ≡ true) e (ground arith)
  | inr n ↦ find-all q p x xs (ground arith) (ground arith)
]
