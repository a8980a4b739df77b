-- ===== src/Base/Sort.antt =====
-- `ORDER BY`: a stable insertion sort.
use mathlib.Core.Bool.{Bool}
use mathlib.Core.List.{List, [], ◌∷◌, Perm}
use mathlib.Core.List.Perm
use mathlib.Core.Logic.{inl, inr}
use open_key_server.Base.Tests.{if◌then◌else◌, Bool-cases}

module _ {R : Type 0} (le : R → R → Bool) where
  unfoldable pub insert_by : R → List R → List R
  insert_by r [] = r ∷ []
  insert_by r (x ∷ xs) = if le r x then r ∷ x ∷ xs else x ∷ insert_by r xs

  unfoldable pub order_by : List R → List R
  unfolding insert_by
  order_by [] = []
  order_by (x ∷ xs) = insert_by x (order_by xs)

  insert_by-perm : (r : R) (xs : List R) → Perm (insert_by r xs) (r ∷ xs)
  unfolding insert_by
  insert_by-perm r [] = Perm.refl _
  insert_by-perm r (x ∷ xs) = elim (Bool-cases (le r x)) [
    | inl first ↦ rw first (Perm.refl _)
    | inr later ↦ rw later (Perm.trans (Perm.cons x (insert_by-perm r xs)) (Perm.swap r x xs))
  ]

  pub order_by-perm : (xs : List R) → Perm (order_by xs) xs
  unfolding order_by
  order_by-perm [] = Perm.refl _
  order_by-perm (x ∷ xs) =
      Perm.trans (insert_by-perm x (order_by xs)) (Perm.cons x (order_by-perm xs))
