-- ===== src/Config/Origins.antt =====
-- The origins that Config keeps of `cors_origins`, and the value it stores for them.
use Prim.Native.Char.{Char}
use Prim.Native.String.{◌++◌ as append, char_at}
use Prim.Native.String.append.{nil, cons}
use open_key_server.Base.{
  String, ◌≡◌, refl, sym, ap, ◌∙◌, subst, inl, inr, Bool, true, false, List, [], ◌∷◌, any, All,
  ◌==◌, string_eq, if◌then◌else◌,
}
use open_key_server.Text.{is_empty, strip}
use open_key_server.Config.{
  is_comma, put_first, split, join, non_empty, cors_origin_list, reject_insecure_cors,
  checked_origins,
}
use open_key_server.Config.Strip.{bool_cases, has_char, or_none, strip-strip, has_char-strip}

abbrev pub HasNoComma : String → Type 0
HasNoComma s = has_char is_comma s ≡ false

-- No comma, no white space at either end, and not empty.
abbrev pub IsOrigin : String → Type 0
IsOrigin s = HasNoComma s × (strip s ≡ s) × (is_empty s ≡ false)

split_yes :
    (c : Char) (s : String) → is_comma c ≡ true → split (String.◌∷◌ c s) ≡ String.[] ∷ split s
unfolding split
split_yes c s e = rw (split, e)

split_no :
    (c : Char) (s : String) → is_comma c ≡ false → split (String.◌∷◌ c s) ≡ put_first c (split s)
unfolding split
split_no c s e = rw (split, e)

put_first-HasNoComma :
    (c : Char) (pieces : List String)
    → is_comma c ≡ false
    → All HasNoComma pieces
    → All HasNoComma (put_first c pieces)
unfolding has_char
put_first-HasNoComma c [] e a = (rw e refl, tt)
put_first-HasNoComma c (s ∷ pieces) e a = (rw e a.0, a.1)

split-HasNoComma : (s : String) → All HasNoComma (split s)
unfolding split has_char
split-HasNoComma String.[] = (refl, tt)
split-HasNoComma (String.◌∷◌ c s) = elim (bool_cases (is_comma c)) [
  | inl e ↦ subst (All HasNoComma) (sym (split_yes c s e)) (refl, split-HasNoComma s)
  | inr e ↦
      subst (All HasNoComma) (sym (split_no c s e))
        (put_first-HasNoComma c (split s) e (split-HasNoComma s))
]

keep_no :
    (s : String) (pieces : List String)
    → is_empty (strip s) ≡ true
    → non_empty (s ∷ pieces) ≡ non_empty pieces
unfolding non_empty
keep_no s pieces e = rw (non_empty, e)

keep_yes :
    (s : String) (pieces : List String)
    → is_empty (strip s) ≡ false
    → non_empty (s ∷ pieces) ≡ strip s ∷ non_empty pieces
unfolding non_empty
keep_yes s pieces e = rw (non_empty, e)

non_empty-IsOrigin :
    (pieces : List String) → All HasNoComma pieces → All IsOrigin (non_empty pieces)
unfolding non_empty
non_empty-IsOrigin [] a = tt
non_empty-IsOrigin (s ∷ pieces) a = elim (bool_cases (is_empty (strip s))) [
  | inl e ↦ subst (All IsOrigin) (sym (keep_no s pieces e)) (non_empty-IsOrigin pieces a.1)
  | inr e ↦
      subst (All IsOrigin) (sym (keep_yes s pieces e))
        ((has_char-strip is_comma s a.0, strip-strip s, e), non_empty-IsOrigin pieces a.1)
]

non_empty-all : (origins : List String) → All IsOrigin origins → non_empty origins ≡ origins
unfolding non_empty
non_empty-all [] a = refl
non_empty-all (s ∷ origins) ((clean, same, full), a) =
    keep_yes s origins (ap is_empty same ∙ full)
    ∙ ap (λ x. x ∷ non_empty origins) same
    ∙ ap (λ x. s ∷ x) (non_empty-all origins a)

split-one : (s : String) → HasNoComma s → split s ≡ s ∷ []
unfolding split has_char
split-one String.[] h = refl
split-one (String.◌∷◌ c s) h =
    let both = or_none (is_comma c) (has_char is_comma s) h in
    split_no c s both.0 ∙ ap (put_first c) (split-one s both.1)

glued : (t : String) → append "," t ≡ String.◌∷◌ (char_at "," 0) t
glued t = cons (char_at "," 0) String.[] t ∙ ap (String.◌∷◌ (char_at "," 0)) (nil t)

split-append : (s t : String) → HasNoComma s → split (append s (append "," t)) ≡ s ∷ split t
unfolding has_char
split-append String.[] t h =
    ap split (nil (append "," t) ∙ glued t) ∙ split_yes (char_at "," 0) t refl
split-append (String.◌∷◌ c s) t h =
    let both = or_none (is_comma c) (has_char is_comma s) h in
    ap split (cons c s (append "," t))
    ∙ split_no c (append s (append "," t)) both.0
    ∙ ap (put_first c) (split-append s t both.1)

split-join :
    (o : String) (origins : List String)
    → All IsOrigin (o ∷ origins)
    → split (join (o ∷ origins)) ≡ o ∷ origins
unfolding join
split-join o [] a = split-one o a.0.0
split-join o (next ∷ origins) a =
    split-append o (join (next ∷ origins)) a.0.0 ∙ ap (λ x. o ∷ x) (split-join next origins a.1)

cors_origin_list-IsOrigin : (value : String) → All IsOrigin (cors_origin_list value)
cors_origin_list-IsOrigin value = non_empty-IsOrigin (split value) (split-HasNoComma value)

listed :
    (o : String) (origins : List String)
    → All IsOrigin (o ∷ origins)
    → cors_origin_list (join (o ∷ origins)) ≡ o ∷ origins
listed o origins a = ap non_empty (split-join o origins a) ∙ non_empty-all (o ∷ origins) a

if_accepted :
    (b : Bool) (message value accepted : String)
    → (if b then inl message else inr value) ≡ inr accepted
    → (b ≡ false) × (value ≡ accepted)
if_accepted true message value accepted h = (cc, cc)
if_accepted false message value accepted h = (refl, cc)

abbrev pub is_star : String → Bool
is_star s = s == "*"

kept :
    (origins : List String) (accepted : String)
    → All IsOrigin origins
    → checked_origins origins ≡ inr accepted
    → (cors_origin_list accepted ≡ origins) × (any is_star origins ≡ false)
unfolding checked_origins any
kept [] accepted a h = (cc, cc)
kept (o ∷ origins) accepted a h =
    let found = if_accepted (any is_star (o ∷ origins)) _ (join (o ∷ origins)) accepted h in
    (ap cors_origin_list (sym found.1) ∙ listed o origins a, found.0)

-- A value of CORS_ORIGINS that is accepted is stored as one whose list of origins is that of the
-- value; no origin of the list is '*' or empty, or has a comma or white space at an end; and the
-- stored value, validated again, is accepted and stays as it is.
pub reject_insecure_cors-cors_origin_list :
    (value accepted : String)
    → reject_insecure_cors value ≡ inr accepted
    → (cors_origin_list accepted ≡ cors_origin_list value)
      × All IsOrigin (cors_origin_list accepted)
      × (any is_star (cors_origin_list accepted) ≡ false)
      × (reject_insecure_cors accepted ≡ inr accepted)
unfolding reject_insecure_cors
reject_insecure_cors-cors_origin_list value accepted h =
    let (same, free) = kept (cors_origin_list value) accepted (cors_origin_list-IsOrigin value) h in
    (
      same,
      cors_origin_list-IsOrigin accepted,
      ap (any is_star) same ∙ free,
      ap checked_origins same ∙ h,
    )
