-- ===== src/Orm/Lookup.antt =====
-- What a query by a unique key sees after a write: a table is a finite map from its keys.
-- `hits k r` says that the row `r` has the key `k`.
use open_key_server.Base.{
  ℕ, ◌≡◌, refl, Bool, true, false, some, List, [], ◌∷◌, ◌++◌, arith, inl, inr, Bool-cases, nat_eq,
  nat_beq_iff, if◌then◌else◌, any, find,
}
use open_key_server.Orm.Rows.{replace, IsKeyed, replace_absent, any-find}

module _ {R K : Type 0} (id : R → ℕ) (clash : R → R → Bool) (hits : K → R → Bool) where
  module _ (clash_of_id : (a b : R) → id a ≡ id b → clash a b ≡ true)
      (clash_comm : (a b : R) → clash a b ≡ clash b a)
      (clash_of_hits : (k : K) (a b : R)
        → hits k a ≡ true
        → hits k b ≡ true
        → clash a b ≡ true) where
    pub find-append :
        (k : K) (r : R) (xs : List R)
        → any (clash r) xs ≡ false
        → find (hits k) (xs ++ r ∷ []) ≡ (if hits k r then some r else find (hits k) xs)
    unfolding any find
    find-append k r [] h = refl
    find-append k r (x ∷ xs) h = ground (arith, find-append k r xs, clash_of_hits k r x)

    pub find-replace :
        (k : K) (p : R → Bool) (r x : R) (xs : List R)
        → IsKeyed id clash xs
        → find p xs ≡ some x
        → id x ≡ id r
        → hits k x ≡ hits k r
        → find (hits k) (replace id r xs) ≡ (if hits k r then some r else find (hits k) xs)
    unfolding find replace
    find-replace k p r x [] h f i e = cc
    find-replace k p r x (y ∷ ys) h f i e = elim (Bool-cases (p y)) [
      | inl hit ↦ ground (
        arith,
        replace_absent id clash clash_of_id clash_comm y r ys h.0,
        nat_beq_iff (id y) (id r),
      )
      | inr miss ↦ ground (
        arith,
        find-replace k p r x ys h.1,
        any-find id clash (clash y) p ys x h.0,
        clash_of_id y x,
        clash_of_hits k y x,
        nat_beq_iff (id y) (id r),
      )
    ]

    -- Any query that finds the row finds it by its key too.
    pub find-hits :
        (k : K) (p : R → Bool) (x : R) (xs : List R)
        → IsKeyed id clash xs
        → find p xs ≡ some x
        → hits k x ≡ true
        → find (hits k) xs ≡ some x
    unfolding find
    find-hits k p x [] h f e = cc
    find-hits k p x (y ∷ ys) h f e = elim (Bool-cases (p y)) [
      | inl hit ↦ ground arith
      | inr miss ↦ ground (
        arith,
        find-hits k p x ys h.1,
        any-find id clash (clash y) p ys x h.0,
        clash_of_hits k y x,
      )
    ]
