-- ===== src/Api/Attachments/Filenames.antt =====
-- The file name in the Content-Disposition header of app/api/attachments.py.
use Prim.Native.Char.{Char, code}
use open_key_server.Base.{
  ℕ, zero, suc, ◌≤◌, ◌≡◌, refl, String, Bool, true, not, ◌&&◌, ◌==◌, nat_eq, leb, arith, inl, inr,
  Bool-cases, if◌then◌else◌,
}
use open_key_server.Text.{is_empty, strip, strip_left, strip_right, cons_unless, is_space}
use open_key_server.Api.Attachments.Transfer.{is_unsafe, keep_chars, take_chars, clean_filename}

abbrev pub AllChars : (Char → Bool) → String → Type 0
AllChars p String.[] = Unit
AllChars p (String.◌∷◌ c s) = (p c ≡ true) × AllChars p s

abbrev pub num_chars : String → ℕ
num_chars String.[] = 0
num_chars (String.◌∷◌ c s) = suc (num_chars s)

-- A character that ends neither the quoted name nor the header line: no control character, quote
-- or backslash.
abbrev pub is_header_safe : Char → Bool
is_header_safe c = leb 32 (code c) && not (code c == 34) && not (code c == 92)

module _ (q p : Char → Bool) where
  keep_chars-AllChars : (s : String) → AllChars q s → AllChars (λ c. p c && q c) (keep_chars p s)
  unfolding keep_chars
  keep_chars-AllChars String.[] h = tt
  keep_chars-AllChars (String.◌∷◌ c s) h = elim (Bool-cases (p c)) [
    | inl kept ↦ rw kept (ground (arith), keep_chars-AllChars s h.1)
    | inr dropped ↦ rw dropped (keep_chars-AllChars s h.1)
  ]

  strip_left-AllChars : (s : String) → AllChars q s → AllChars q (strip_left p s)
  unfolding strip_left
  strip_left-AllChars String.[] h = tt
  strip_left-AllChars (String.◌∷◌ c s) h = elim (Bool-cases (p c)) [
    | inl space ↦ rw space (strip_left-AllChars s h.1)
    | inr other ↦ rw other h
  ]

  cons_unless-AllChars :
      (c : Char) (s : String) → q c ≡ true → AllChars q s → AllChars q (cons_unless p c s)
  cons_unless-AllChars c String.[] h i = elim (Bool-cases (p c)) [
    | inl space ↦ rw space tt
    | inr other ↦ rw other (h, tt)
  ]
  cons_unless-AllChars c (String.◌∷◌ d s) h i = (h, i)

  strip_right-AllChars : (s : String) → AllChars q s → AllChars q (strip_right p s)
  unfolding strip_right
  strip_right-AllChars String.[] h = tt
  strip_right-AllChars (String.◌∷◌ c s) h =
      cons_unless-AllChars c (strip_right p s) h.0 (strip_right-AllChars s h.1)

module _ (q : Char → Bool) where
  strip-AllChars : (s : String) → AllChars q s → AllChars q (strip s)
  unfolding strip
  strip-AllChars s h =
      strip_right-AllChars q is_space (strip_left is_space s) (strip_left-AllChars q is_space s h)

  take_chars-AllChars : (n : ℕ) (s : String) → AllChars q s → AllChars q (take_chars n s)
  unfolding take_chars
  take_chars-AllChars zero s h = tt
  take_chars-AllChars (suc n) String.[] h = tt
  take_chars-AllChars (suc n) (String.◌∷◌ c s) h = (h.0, take_chars-AllChars n s h.1)

num_chars-take_chars-le : (n : ℕ) (s : String) → num_chars (take_chars n s) ≤ n
unfolding take_chars
num_chars-take_chars-le zero s = omega arith
num_chars-take_chars-le (suc n) String.[] = omega arith
num_chars-take_chars-le (suc n) (String.◌∷◌ c s) = omega (arith, num_chars-take_chars-le n s)

all_true : (s : String) → AllChars (λ c. true) s
all_true String.[] = tt
all_true (String.◌∷◌ c s) = (refl, all_true s)

AllChars-mono :
    (p q : Char → Bool) (s : String)
    → ((c : Char) → p c ≡ true → q c ≡ true)
    → AllChars p s
    → AllChars q s
AllChars-mono p q String.[] h a = tt
AllChars-mono p q (String.◌∷◌ c s) h a = (h c a.0, AllChars-mono p q s h a.1)

default_name : AllChars is_header_safe "attachment.bin"
unfolding is_unsafe
default_name = ground arith

safe_of_kept : (c : Char) → leb 32 (code c) && not (is_unsafe c) ≡ true → is_header_safe c ≡ true
unfolding is_unsafe
safe_of_kept c h = ground arith

default_if_empty :
    (s : String)
    → AllChars is_header_safe s
    → AllChars is_header_safe (if is_empty s then "attachment.bin" else s)
default_if_empty String.[] h = default_name
default_if_empty (String.◌∷◌ c s) h = h

-- The file name of a download's header has no character below U+0020, no quote (code 34) and no
-- backslash (code 92), and 200 characters at most, whatever the stored name is.
pub clean_filename_lem :
    (filename : String)
    → AllChars is_header_safe (clean_filename filename)
      × (num_chars (clean_filename filename) ≤ 200)
unfolding clean_filename
clean_filename_lem filename =
    let safe = λ (c : Char). not (is_unsafe c) in
    let first =
      AllChars-mono (λ c. safe c && true) safe (keep_chars safe filename) (λ c h. ground arith)
        (keep_chars-AllChars (λ c. true) safe filename (all_true filename)) in
    (
      take_chars-AllChars is_header_safe 200 _ (
          default_if_empty _ (
            AllChars-mono (λ c. leb 32 (code c) && safe c) is_header_safe _ safe_of_kept
              (keep_chars-AllChars safe (λ c. leb 32 (code c)) _ (strip-AllChars safe _ first)))),
      num_chars-take_chars-le 200 _,
    )
