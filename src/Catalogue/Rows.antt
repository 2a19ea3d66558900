-- ===== src/Catalogue/Rows.antt =====
-- What an update of rows keeps and changes.
use wattanman.Base.{
  Bool, true, false, ◌≡◌, refl, inl, inr, some, List, [], ◌∷◌, find, all, any, arith, Bool-cases,
}
use wattanman.Catalogue.Types.{update_first, update_where}

pub update_first-all :
    {A : Type 0} (q p : A → Bool) (f : A → A) (xs : List A)
    → ((x : A) → find p xs ≡ some x → q x ≡ true → q (f x) ≡ true)
    → all q xs ≡ true
    → all q (update_first p f xs) ≡ true
unfolding update_first all find
update_first-all q p f [] h t = refl
update_first-all q p f (x ∷ xs) h t = elim (Bool-cases (p x)) [
  | inl y ↦ ground (arith, h x (ground arith))
  | inr n ↦ ground (arith, update_first-all q p f xs (λ y e. h y (ground arith)))
]

pub update_where-all :
    {A : Type 0} (q p : A → Bool) (f : A → A) (xs : List A)
    → ((x : A) → p x ≡ true → q x ≡ true → q (f x) ≡ true)
    → all q xs ≡ true
    → all q (update_where p f xs) ≡ true
unfolding update_where all
update_where-all q p f [] h t = refl
update_where-all q p f (x ∷ xs) h t = elim (Bool-cases (p x)) [
  | inl y ↦ ground (arith, h x y, update_where-all q p f xs h)
  | inr n ↦ ground (arith, update_where-all q p f xs h)
]

pub find-update_first :
    {A : Type 0} (p : A → Bool) (f : A → A) (x : A) (xs : List A)
    → find p xs ≡ some x
    → p (f x) ≡ true
    → find p (update_first p f xs) ≡ some (f x)
unfolding update_first find
find-update_first p f x [] h t = absurd (ground arith)
find-update_first p f x (y ∷ xs) h t = elim (Bool-cases (p y)) [
  | inl z ↦ let e : y ≡ x = ground arith in rw (z, e, t) refl
  | inr n ↦ ground (arith, find-update_first p f x xs (ground arith) t)
]

-- No row meets the test after it was changed so that it does not.
pub update_where-none :
    {A : Type 0} (q p : A → Bool) (f : A → A) (xs : List A)
    → ((x : A) → q x ≡ true → p x ≡ true)
    → ((x : A) → p x ≡ true → q (f x) ≡ false)
    → any q (update_where p f xs) ≡ false
unfolding update_where any
update_where-none q p f [] covers clears = refl
update_where-none q p f (x ∷ xs) covers clears = elim (Bool-cases (p x)) [
  | inl y ↦ ground (arith, clears x y, update_where-none q p f xs covers clears)
  | inr n ↦ ground (arith, covers x, update_where-none q p f xs covers clears)
]
