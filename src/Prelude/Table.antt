-- ===== src/Prelude/Table.antt =====
-- The rows of a database table, in insertion order, and the statements that the code runs on them.
use mathlib.Core.Path.{◌≡◌, refl}
use mathlib.Core.Bool.{Bool, true, cond}
use mathlib.Core.Option.{Option, none, some}
use mathlib.Core.List.{List, [], ◌∷◌}
use native.Mathlib.Omega.{arith}

module _ {ℓ} {A : Type ℓ} where
  -- `select(T).where(p)`, `scalar_one_or_none`: the conditions that the code uses are on keys.
  abbrev pub find : (A → Bool) → List A → Option A
  find p [] = none
  find p (x ∷ xs) = cond (p x) (some x) (find p xs)

  -- an assignment to the attributes of the object that `p` singles out
  abbrev pub modify_where : (A → Bool) → (A → A) → List A → List A
  modify_where p f [] = []
  modify_where p f (x ∷ xs) = cond (p x) (f x) x ∷ modify_where p f xs

  -- `db.delete`
  abbrev pub delete_where : (A → Bool) → List A → List A
  delete_where p [] = []
  delete_where p (x ∷ xs) = let rest = delete_where p xs in cond (p x) rest (x ∷ rest)

  -- a row that is found passes its test
  pub find-test : (p : A → Bool) (xs : List A) (a : A) → find p xs ≡ some a → p a ≡ true
  find-test p [] a h = cc
  find-test p (x ∷ xs) a h = ground (arith, find-test p xs a)

  abbrev pub modified : (A → Bool) → (A → A) → Option A → Option A
  modified p f none = none
  modified p f (some x) = some (cond (p x) (f x) x)

  -- what is looked up by another test is found as before, and `modify_where` keeps the tests
  pub find-modify :
      (p q : A → Bool) (f : A → A) (xs : List A)
      → ((x : A) → q (cond (p x) (f x) x) ≡ q x)
      → find q (modify_where p f xs) ≡ modified p f (find q xs)
  find-modify p q f [] h = refl
  find-modify p q f (x ∷ xs) h = ground (arith, h x, find-modify p q f xs h)
