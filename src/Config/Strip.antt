-- ===== src/Config/Strip.antt =====
-- `str.strip` of Text, done once or twice, and what it keeps out.
use Prim.Native.Char.{Char}
use open_key_server.Base.{
  String, ◌≡◌, refl, sym, ap, ◌∙◌, ◌⊎◌, inl, inr, Bool, true, false, ◌||◌, arith,
}
use open_key_server.Text.{is_space, strip_left, cons_unless, strip_right, strip}

pub bool_cases : (b : Bool) → (b ≡ true) ⊎ (b ≡ false)
bool_cases true = inl refl
bool_cases false = inr refl

unfoldable pub has_char : (Char → Bool) → String → Bool
has_char q String.[] = false
has_char q (String.◌∷◌ c s) = q c || has_char q s

pub or_none : (a b : Bool) → a || b ≡ false → (a ≡ false) × (b ≡ false)
or_none a b h = ground arith

module _ (p : Char → Bool) where
  left_yes : (c : Char) (s : String) → p c ≡ true → strip_left p (String.◌∷◌ c s) ≡ strip_left p s
  unfolding strip_left
  left_yes c s e = rw (strip_left, e)

  left_no : (c : Char) (s : String) → p c ≡ false → strip_left p (String.◌∷◌ c s) ≡ String.◌∷◌ c s
  unfolding strip_left
  left_no c s e = rw (strip_left, e)

  strip_left-strip_left : (s : String) → strip_left p (strip_left p s) ≡ strip_left p s
  unfolding strip_left
  strip_left-strip_left String.[] = refl
  strip_left-strip_left (String.◌∷◌ c s) = elim (bool_cases (p c)) [
    | inl e ↦ ap (strip_left p) (left_yes c s e) ∙ strip_left-strip_left s ∙ sym (left_yes c s e)
    | inr e ↦ ap (strip_left p) (left_no c s e)
  ]

  last_yes : (c : Char) → p c ≡ true → cons_unless p c String.[] ≡ String.[]
  last_yes c e = rw (cons_unless, e)

  last_no : (c : Char) → p c ≡ false → cons_unless p c String.[] ≡ String.◌∷◌ c String.[]
  last_no c e = rw (cons_unless, e)

  strip_left-cons_unless :
      (c : Char) (t : String) → p c ≡ false → strip_left p (cons_unless p c t) ≡ cons_unless p c t
  strip_left-cons_unless c String.[] e =
      ap (strip_left p) (last_no c e) ∙ left_no c String.[] e ∙ sym (last_no c e)
  strip_left-cons_unless c (String.◌∷◌ d t) e = left_no c (String.◌∷◌ d t) e

  strip_left-strip_right :
      (s : String) → strip_left p (strip_right p (strip_left p s)) ≡ strip_right p (strip_left p s)
  unfolding strip_left strip_right
  strip_left-strip_right String.[] = refl
  strip_left-strip_right (String.◌∷◌ c s) = elim (bool_cases (p c)) [
    | inl e ↦
        ap (λ x. strip_left p (strip_right p x)) (left_yes c s e)
        ∙ strip_left-strip_right s
        ∙ sym (ap (strip_right p) (left_yes c s e))
    | inr e ↦
        ap (λ x. strip_left p (strip_right p x)) (left_no c s e)
        ∙ strip_left-cons_unless c (strip_right p s) e
        ∙ sym (ap (strip_right p) (left_no c s e))
  ]

  strip_right-cons_unless :
      (c : Char) (t : String)
      → strip_right p t ≡ t
      → strip_right p (cons_unless p c t) ≡ cons_unless p c t
  unfolding strip_right
  strip_right-cons_unless c String.[] h = elim (bool_cases (p c)) [
    | inl e ↦ ap (strip_right p) (last_yes c e) ∙ sym (last_yes c e)
    | inr e ↦ ap (strip_right p) (last_no c e)
  ]
  strip_right-cons_unless c (String.◌∷◌ d t) h = ap (cons_unless p c) h

  strip_right-strip_right : (s : String) → strip_right p (strip_right p s) ≡ strip_right p s
  unfolding strip_right
  strip_right-strip_right String.[] = refl
  strip_right-strip_right (String.◌∷◌ c s) =
      strip_right-cons_unless c (strip_right p s) (strip_right-strip_right s)

  module _ (q : Char → Bool) where
    has_char-strip_left : (s : String) → has_char q s ≡ false → has_char q (strip_left p s) ≡ false
    unfolding has_char strip_left
    has_char-strip_left String.[] h = refl
    has_char-strip_left (String.◌∷◌ c s) h = elim (bool_cases (p c)) [
      | inl e ↦
          ap (has_char q) (left_yes c s e)
          ∙ has_char-strip_left s (or_none (q c) (has_char q s) h).1
      | inr e ↦ ap (has_char q) (left_no c s e) ∙ h
    ]

    has_char-cons_unless :
        (c : Char) (t : String)
        → q c ≡ false
        → has_char q t ≡ false
        → has_char q (cons_unless p c t) ≡ false
    unfolding has_char
    has_char-cons_unless c String.[] e h = elim (bool_cases (p c)) [
      | inl f ↦ ap (has_char q) (last_yes c f)
      | inr f ↦ ap (has_char q) (last_no c f) ∙ rw e refl
    ]
    has_char-cons_unless c (String.◌∷◌ d t) e h = rw e h

    has_char-strip_right :
        (s : String) → has_char q s ≡ false → has_char q (strip_right p s) ≡ false
    unfolding has_char strip_right
    has_char-strip_right String.[] h = refl
    has_char-strip_right (String.◌∷◌ c s) h =
        let both = or_none (q c) (has_char q s) h in
        has_char-cons_unless c (strip_right p s) both.0 (has_char-strip_right s both.1)

pub strip-strip : (s : String) → strip (strip s) ≡ strip s
unfolding strip
strip-strip s =
    ap (strip_right is_space) (strip_left-strip_right is_space s)
    ∙ strip_right-strip_right is_space (strip_left is_space s)

pub has_char-strip :
    (q : Char → Bool) (s : String) → has_char q s ≡ false → has_char q (strip s) ≡ false
unfolding strip
has_char-strip q s h =
    has_char-strip_right is_space q (strip_left is_space s) (has_char-strip_left is_space q s h)
