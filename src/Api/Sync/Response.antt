-- ===== src/Api/Sync/Response.antt =====
-- `_merge_by_uuid` of app/api/sync.py: the rows that a pull selects, and the winners that were pushed
-- against.
use mathlib.Core.List.{append-nil, append_assoc}
use open_key_server.Base.{
  String, Bool, true, false, ◌==◌, eq_of_==, eq_iff, subst, string_eq, ◌≡◌, refl, sym, ◌∙◌, List,
  [], ◌∷◌, ◌++◌, any, arith, inl, inr, Bool-cases, if◌then◌else◌,
}

module _ {R : Type 0} (uuid : R → String) where
  -- `u in seen`, where `seen` holds the uuids of the rows so far.
  abbrev pub is_seen : String → List R → Bool
  is_seen u rows = any (λ r. uuid r == u) rows

  -- The loop, over the rows so far.
  unfoldable pub merge_by_uuid : List R → List R → List R
  merge_by_uuid out [] = out
  merge_by_uuid out (row ∷ extras) =
      let longer = merge_by_uuid (out ++ row ∷ []) extras in
      let same = merge_by_uuid out extras in if is_seen (uuid row) out then same else longer

  -- No two rows have the same uuid.
  abbrev pub IsDistinct : List R → Type 0
  IsDistinct [] = Unit
  IsDistinct (r ∷ rows) = (is_seen (uuid r) rows ≡ false) × IsDistinct rows

  is_seen-append :
      (u : String) (xs ys : List R)
      → is_seen u (xs ++ ys) ≡ (if is_seen u xs then true else is_seen u ys)
  unfolding any
  is_seen-append u [] ys = refl
  is_seen-append u (x ∷ xs) ys = ground (arith, is_seen-append u xs ys)

  IsDistinct-append :
      (rows : List R) (r : R)
      → IsDistinct rows
      → is_seen (uuid r) rows ≡ false
      → IsDistinct (rows ++ r ∷ [])
  unfolding any
  IsDistinct-append [] r d h = (refl, tt)
  IsDistinct-append (x ∷ rows) r d h = (
    ground (
      arith,
      d.0,
      h,
      is_seen-append (uuid x) rows (r ∷ []),
      eq_iff (uuid r) (uuid x),
      eq_iff (uuid x) (uuid r),
    ),
    IsDistinct-append rows r d.1 (ground (arith, h)),
  )

  -- A row is answered exactly if it is selected or its uuid is among the winners'.
  pub is_seen-merge_by_uuid :
      (u : String) (out extras : List R)
      → is_seen u (merge_by_uuid out extras) ≡ (if is_seen u out then true else is_seen u extras)
  unfolding any merge_by_uuid
  is_seen-merge_by_uuid u out [] = ground arith
  is_seen-merge_by_uuid u out (row ∷ extras) = elim (Bool-cases (is_seen (uuid row) out)) [
    | inr new ↦ rw new (
        ground (
          arith,
          is_seen-merge_by_uuid u (out ++ row ∷ []) extras,
          is_seen-append u out (row ∷ []),
        ))
    | inl old ↦ rw old (elim (Bool-cases (uuid row == u)) [
      | inr other ↦ ground (arith, other, is_seen-merge_by_uuid u out extras)
      | inl same ↦
          let seen = subst (λ v. is_seen v out ≡ true) (eq_of_== (uuid row) u same) old in
          ground (arith, seen, is_seen-merge_by_uuid u out extras)
    ])
  ]

  pub merge_by_uuid-IsDistinct :
      (out extras : List R) → IsDistinct out → IsDistinct (merge_by_uuid out extras)
  unfolding merge_by_uuid
  merge_by_uuid-IsDistinct out [] d = d
  merge_by_uuid-IsDistinct out (row ∷ extras) d = elim (Bool-cases (is_seen (uuid row) out)) [
    | inl old ↦ rw old (merge_by_uuid-IsDistinct out extras d)
    | inr new ↦
        rw new (merge_by_uuid-IsDistinct (out ++ row ∷ []) extras (IsDistinct-append out row d new))
  ]

  pub merge_by_uuid-extends :
      (out extras : List R) → (rest : List R) × (merge_by_uuid out extras ≡ out ++ rest)
  unfolding merge_by_uuid
  merge_by_uuid-extends out [] = ([], sym (append-nil out))
  merge_by_uuid-extends out (row ∷ extras) = elim (Bool-cases (is_seen (uuid row) out)) [
    | inl old ↦ rw old (merge_by_uuid-extends out extras)
    | inr new ↦
        let (rest, e) = merge_by_uuid-extends (out ++ row ∷ []) extras in
        rw new (row ∷ rest, e ∙ append_assoc out (row ∷ []) rest)
  ]

  -- Merging two lists of rows gives the first list, whose uuids are assumed to be distinct,
  -- followed by rows such that all uuids are distinct, and with exactly the uuids of the two
  -- lists.
  pub merge_by_uuid_lem :
      (primary extras : List R)
      → IsDistinct primary
      → IsDistinct (merge_by_uuid primary extras)
        × ((u : String)
            → is_seen u (merge_by_uuid primary extras)
              ≡ (if is_seen u primary then true else is_seen u extras))
        × ((rest : List R) × (merge_by_uuid primary extras ≡ primary ++ rest))
  merge_by_uuid_lem primary extras d = (
    merge_by_uuid-IsDistinct primary extras d,
    λ u. is_seen-merge_by_uuid u primary extras,
    merge_by_uuid-extends primary extras,
  )
