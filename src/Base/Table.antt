-- ===== src/Base/Table.antt =====
-- A table of the database, as the query client shows it. The client is not part of the repository:
-- the code relies on a query returning rows of the table that meet its `where` clause, on
-- `findFirst` returning one if there is one, and on `findMany` returning all of them.
use mathlib.Core.Path.{◌≡◌}
use mathlib.Core.Bool.{Bool, true, false}
use mathlib.Core.List.{List}
use mathlib.Core.Option.{Option, none, some}
use wattanman.Base.Lists.{
  All, In, find, filter, find-In, find-none, filter-In, filter_complete, All-In,
}
use wattanman.Base.Tests.{Option-cases}
use mathlib.Core.Logic.{◌↔◌, inl, inr}

pub record Table {ℓ} (Row : Type ℓ) : Type ℓ where
  pub rows : List Row
  pub find_first : (Row → Bool) → Option Row
  pub find_many : (Row → Bool) → List Row
  pub find_first_meets :
      (p : Row → Bool) (r : Row) → find_first p ≡ some r → In r rows × (p r ≡ true)
  pub find_first_none : (p : Row → Bool) → find_first p ≡ none → All (λ r. p r ≡ false) rows
  pub find_many_meets : (p : Row → Bool) (r : Row) → In r (find_many p) → In r rows × (p r ≡ true)
  pub find_many_complete : (p : Row → Bool) (r : Row) → In r rows → p r ≡ true → In r (find_many p)

-- A table held as a list meets the laws.
abbrev pub of_list {ℓ} : {Row : Type ℓ} → List Row → Table Row
of_list xs = record {
  rows = xs;
  find_first = λ p. find p xs;
  find_many = λ p. filter p xs;
  find_first_meets = λ p r. find-In p r xs;
  find_first_none = λ p. find-none p xs;
  find_many_meets = λ p r. filter-In p r xs;
  find_many_complete = λ p r. filter_complete p r xs;
}

-- No row meets a test that `findFirst` finds no row for, and the other way round.
pub find_first-eq-none_iff {ℓ} :
    {Row : Type ℓ} (t : Table Row) (p : Row → Bool)
    → (t.find_first p ≡ none) ↔ ((r : Row) → In r t.rows → p r ≡ false)
find_first-eq-none_iff {Row} t p =
    (λ e. All-In (λ r. p r ≡ false) t.rows (t.find_first_none p e), λ h. from h)
  where
    from : ((r : Row) → In r t.rows → p r ≡ false) → t.find_first p ≡ none
    from h = elim (Option-cases (t.find_first p)) [
      | inl e ↦ e
      | inr (r, e) ↦ let (m, q) = t.find_first_meets p r e in cc (h r m)
    ]
