-- ===== src/Orm/Rows.antt =====
-- The rows of one table under a primary key and unique constraints, whatever the rows are.
-- `clash a b` says that the two rows cannot both be stored.
use open_key_server.Base.{
  ℕ, ◌≡◌, refl, ◌∙◌, Bool, true, false, not, ◌&&◌, some, List, [], ◌∷◌, ◌++◌, map, arith, inl, inr,
  Bool-cases, ◌==◌, nat_beq_iff, if◌then◌else◌, any, find, filter, nat_eq,
}

module _ {R : Type 0} (id : R → ℕ) where
  -- `UPDATE … WHERE id = r.id`
  unfoldable pub replace : R → List R → List R
  replace r [] = []
  replace r (x ∷ xs) = (if id x == id r then r else x) ∷ replace r xs

  abbrev pub has_id : R → R → Bool
  has_id r x = id x == id r

module _ {R : Type 0} (id : R → ℕ) (clash : R → R → Bool) where
  -- No two rows clash.
  abbrev pub IsKeyed : List R → Type 0
  IsKeyed [] = Unit
  IsKeyed (x ∷ xs) = (any (clash x) xs ≡ false) × IsKeyed xs

  -- Another row than the one that `r` overwrites clashes with `r`.
  abbrev pub clash_other : R → R → Bool
  clash_other r x = not (id x == id r) && clash r x

  pub any-find :
      (q p : R → Bool) (xs : List R) (x : R) → any q xs ≡ false → find p xs ≡ some x → q x ≡ false
  unfolding any find
  any-find q p [] x h e = cc
  any-find q p (y ∷ ys) x h e = ground (arith, any-find q p ys x)

  module _ (clash_of_id : (a b : R) → id a ≡ id b → clash a b ≡ true)
      (clash_comm : (a b : R) → clash a b ≡ clash b a) where
    any-append :
        (q : R → Bool) (xs : List R) (r : R)
        → any q xs ≡ false
        → q r ≡ false
        → any q (xs ++ r ∷ []) ≡ false
    unfolding any
    any-append q [] r h e = ground arith
    any-append q (x ∷ xs) r h e = ground (arith, any-append q xs r)

    pub append-IsKeyed :
        (r : R) (xs : List R) → IsKeyed xs → any (clash r) xs ≡ false → IsKeyed (xs ++ r ∷ [])
    unfolding any
    append-IsKeyed r [] h e = (refl, tt)
    append-IsKeyed r (x ∷ xs) h e = (
      any-append (clash x) xs r h.0 (ground (arith, clash_comm x r)),
      append-IsKeyed r xs h.1 (ground arith),
    )

    any-replace :
        (q : R → Bool) (r : R) (xs : List R)
        → any q xs ≡ false
        → q r ≡ false
        → any q (replace id r xs) ≡ false
    unfolding any replace
    any-replace q r [] h e = refl
    any-replace q r (x ∷ xs) h e = ground (arith, any-replace q r xs)

    pub replace_absent :
        (x r : R) (xs : List R) → any (clash x) xs ≡ false → id x ≡ id r → replace id r xs ≡ xs
    unfolding any replace
    replace_absent x r [] h e = refl
    replace_absent x r (y ∷ ys) h e =
        ground (arith, replace_absent x r ys, clash_of_id x y, nat_beq_iff (id y) (id r))

    any_same :
        (r x : R) (xs : List R)
        → any (clash x) xs ≡ false
        → any (clash_other r) (x ∷ xs) ≡ false
        → id x ≡ id r
        → any (clash r) xs ≡ false
    unfolding any
    any_same r x [] h e i = refl
    any_same r x (y ∷ ys) h e i =
        ground (arith, any_same r x ys, clash_of_id x y, nat_beq_iff (id y) (id r))

    pub replace-IsKeyed :
        (r : R) (xs : List R)
        → IsKeyed xs
        → any (clash_other r) xs ≡ false
        → IsKeyed (replace id r xs)
    unfolding any replace
    replace-IsKeyed r [] h e = tt
    replace-IsKeyed r (x ∷ xs) h e = elim (Bool-cases (id x == id r)) [
      | inl same ↦
          let i : id x ≡ id r = (nat_beq_iff _ _).0 same in
          rw (same, replace_absent x r xs h.0 i) (any_same r x xs h.0 e i, h.1)
      | inr other ↦ rw other (
        any-replace (clash x) r xs h.0 (ground (arith, clash_comm x r)),
        replace-IsKeyed r xs h.1 (ground arith),
      )
    ]

    -- A row is found where it was, whatever happened to another row.
    pub filter-replace :
        (q p : R → Bool) (r x : R) (xs : List R)
        → IsKeyed xs
        → find p xs ≡ some x
        → id x ≡ id r
        → q x ≡ false
        → q r ≡ false
        → filter q (replace id r xs) ≡ filter q xs
    unfolding any find filter replace
    filter-replace q p r x [] k f i a b = refl
    filter-replace q p r x (y ∷ ys) k f i a b = elim (Bool-cases (p y)) [
      | inl hit ↦ ground (arith, replace_absent y r ys k.0, nat_beq_iff (id y) (id r))
      | inr miss ↦ ground (
        arith,
        filter-replace q p r x ys k.1,
        any-find (clash y) p ys x k.0,
        clash_of_id y x,
        nat_beq_iff (id y) (id r),
      )
    ]

    -- The row that was overwritten is what the same query finds.
    pub find-replace :
        (p : R → Bool) (r x : R) (xs : List R)
        → IsKeyed xs
        → find p xs ≡ some x
        → id x ≡ id r
        → p r ≡ true
        → find p (replace id r xs) ≡ some r
    unfolding any find replace
    find-replace p r x [] k f i a = cc
    find-replace p r x (y ∷ ys) k f i a = elim (Bool-cases (p y)) [
      | inl hit ↦ ground (arith, nat_beq_iff (id y) (id r))
      | inr miss ↦ ground (
        arith,
        find-replace p r x ys k.1,
        any-find (clash y) p ys x k.0,
        clash_of_id y x,
        nat_beq_iff (id y) (id r),
      )
    ]

  any-filter : (q p : R → Bool) (xs : List R) → any q xs ≡ false → any q (filter p xs) ≡ false
  unfolding any filter
  any-filter q p [] h = refl
  any-filter q p (x ∷ xs) h = ground (arith, any-filter q p xs)

  pub filter-IsKeyed : (p : R → Bool) (xs : List R) → IsKeyed xs → IsKeyed (filter p xs)
  unfolding filter
  filter-IsKeyed p [] h = tt
  filter-IsKeyed p (x ∷ xs) h = elim (Bool-cases (p x)) [
    | inl hit ↦ rw hit (any-filter (clash x) p xs h.0, filter-IsKeyed p xs h.1)
    | inr miss ↦ rw miss (filter-IsKeyed p xs h.1)
  ]

  module _ (f : R → R) (left : (a b : R) → clash (f a) b ≡ clash a b)
      (right : (a b : R) → clash a (f b) ≡ clash a b) (p : R → Bool) where
    abbrev pub change : R → R
    change r = if p r then f r else r

    any-map : (x : R) (xs : List R) → any (clash x) (map change xs) ≡ any (clash x) xs
    unfolding any
    any-map x [] = refl
    any-map x (y ∷ ys) = elim (Bool-cases (p y)) [
      | inl hit ↦ rw (hit, right x y, any-map x ys) refl
      | inr miss ↦ rw (miss, any-map x ys) refl
    ]

    any-clash : (x : R) (xs : List R) → any (clash (f x)) xs ≡ any (clash x) xs
    unfolding any
    any-clash x [] = refl
    any-clash x (y ∷ ys) = rw (left x y, any-clash x ys) refl

    pub map-IsKeyed : (xs : List R) → IsKeyed xs → IsKeyed (map change xs)
    map-IsKeyed [] h = tt
    map-IsKeyed (x ∷ xs) h = elim (Bool-cases (p x)) [
      | inl hit ↦ rw hit (any-map (f x) xs ∙ any-clash x xs ∙ h.0, map-IsKeyed xs h.1)
      | inr miss ↦ rw miss (any-map x xs ∙ h.0, map-IsKeyed xs h.1)
    ]
