-- ===== src/Text.antt =====
-- The methods of Python's `str` that the program calls, on native text.
use Prim.Native.Char.{Char, code}
use Prim.Native.String.{count, char_at}
use open_key_server.Base.{
  ℕ, zero, suc, ◌-◌, ◌/◌, ◌%◌, String, ◌≡◌, refl, Bool, true, false, ◌&&◌, ◌||◌, ltb, leb, ◌==◌,
  nat_eq, if◌then◌else◌,
}

-- `not s`
abbrev pub is_empty : String → Bool
is_empty String.[] = true
is_empty (String.◌∷◌ c s) = false

-- The characters that `str.strip()` takes for white space.
unfoldable pub is_space : Char → Bool
is_space c =
    let n = code c in
    leb 9 n && leb n 13
    || leb 28 n && leb n 32
    || n == 133
    || n == 160
    || n == 5760
    || leb 8192 n && leb n 8202
    || n == 8232
    || n == 8233
    || n == 8239
    || n == 8287
    || n == 12288

-- `s.lstrip(…)` and `s.rstrip(…)`, given the test of the characters to take off.
unfoldable pub strip_left : (Char → Bool) → String → String
strip_left p String.[] = String.[]
strip_left p (String.◌∷◌ c s) = if p c then strip_left p s else String.◌∷◌ c s

abbrev pub cons_unless : (Char → Bool) → Char → String → String
cons_unless p c String.[] = if p c then String.[] else String.◌∷◌ c String.[]
cons_unless p c (String.◌∷◌ d s) = String.◌∷◌ c (String.◌∷◌ d s)

unfoldable pub strip_right : (Char → Bool) → String → String
strip_right p String.[] = String.[]
strip_right p (String.◌∷◌ c s) = cons_unless p c (strip_right p s)

-- `s.strip()`
unfoldable pub strip : String → String
unfolding strip_left strip_right is_space
strip s = strip_right is_space (strip_left is_space s)

lower_char : Char → Char
lower_char c =
    let n = code c in
    if leb 65 n && leb n 90 then char_at "abcdefghijklmnopqrstuvwxyz" (n - 65) else c

-- `s.lower()`, on ASCII; other letters are left as they are.
unfoldable pub lower : String → String
unfolding lower_char
lower String.[] = String.[]
lower (String.◌∷◌ c s) = String.◌∷◌ (lower_char c) (lower s)

-- `len(s)`
abbrev pub str_len : String → ℕ
str_len = count

-- `str(n)`, with fuel for the digits; `n` itself is more than enough.
unfoldable pub show_digits : ℕ → ℕ → String → String
show_digits zero n rest = rest
show_digits (suc fuel) n rest =
    let rest' = String.◌∷◌ (char_at "0123456789" (n % 10)) rest in
    let more = show_digits fuel (n / 10) rest' in if ltb n 10 then rest' else more

unfoldable pub show : ℕ → String
unfolding show_digits
show n = show_digits (suc n) n ""

show_limit : show 1024 ≡ "1024"
unfolding show
show_limit = refl

strip-lower : strip (lower "  Ada@X.org ") ≡ "ada@x.org"
unfolding strip lower
strip-lower = refl
