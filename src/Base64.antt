-- ===== src/Base64.antt =====
-- Python's `base64.b64encode`, and `base64.b64decode` with `validate=True`, on the bytes of a text.
pub mod RoundTrip
use Prim.Native.Char.{Char, code}
use Prim.Native.String.{char_at}
use open_key_server.Base.{
  ℕ, ◌+◌, ◌-◌, ◌*◌, ◌/◌, ◌%◌, String, Bool, true, ◌&&◌, Option, none, some, List, [], ◌∷◌, leb,
  ◌==◌, nat_eq, if◌then◌else◌,
}
use open_key_server.Text.{is_empty}

unfoldable pub digit : ℕ → Char
digit n = char_at "ABCDEFGHIJKLMNOPQRSTUVWXYZabcdefghijklmnopqrstuvwxyz0123456789+/" n

abbrev pub pad : Char
pad = "="

-- Three bytes to four digits, with padding for those that the last group lacks.
unfoldable pub b64encode : List ℕ → String
b64encode [] = String.[]
b64encode (a ∷ []) =
    String.◌∷◌ (digit (a / 4))
      (String.◌∷◌ (digit (a % 4 * 16)) (String.◌∷◌ pad (String.◌∷◌ pad String.[])))
b64encode (a ∷ b ∷ []) = String.◌∷◌ (digit (a / 4)) (
    String.◌∷◌ (digit (a % 4 * 16 + b / 16))
      (String.◌∷◌ (digit (b % 16 * 4)) (String.◌∷◌ pad String.[])))
b64encode (a ∷ b ∷ c ∷ bytes) = String.◌∷◌ (digit (a / 4)) (
    String.◌∷◌ (digit (a % 4 * 16 + b / 16))
      (String.◌∷◌ (digit (b % 16 * 4 + c / 64)) (String.◌∷◌ (digit (c % 64)) (b64encode bytes))))

abbrev within : ℕ → ℕ → ℕ → Bool
within lo hi n = leb lo n && leb n hi

-- The value of a digit; `none` for a character that is not of the alphabet.
unfoldable pub digit_value : Char → Option ℕ
digit_value c =
    let n = code c in
    if within 65 90 n
    then some (n - 65)
    else if within 97 122 n
    then some (n - 71)
    else if within 48 57 n
    then some (n + 4)
    else if n == 43
    then some 62
    else if n == 47
    then some 63
    else none

infixl 5 ◌>>=◌
abbrev ◌>>=◌ : {A B : Type 0} → Option A → (A → Option B) → Option B
none >>= f = none
some a >>= f = f a

abbrev is_pad : Char → Bool
is_pad c = code c == 61

-- The last group, with one byte or two.
abbrev decode_last : Char → Char → Char → Option (List ℕ)
decode_last c d e = do
  x ← digit_value c
  y ← digit_value d
  if is_pad e
      then some ((x * 4 + y / 16) ∷ [])
      else digit_value e >>= λ z. some ((x * 4 + y / 16) ∷ (y % 16 * 16 + z / 4) ∷ [])

abbrev decode_group : Char → Char → Char → Char → Option (List ℕ) → Option (List ℕ)
decode_group c d e f rest = do
  x ← digit_value c
  y ← digit_value d
  z ← digit_value e
  w ← digit_value f
  bytes ← rest
  some ((x * 4 + y / 16) ∷ (y % 16 * 16 + z / 4) ∷ (z % 4 * 64 + w) ∷ bytes)

-- Padding stands at the end only, and completes the last group; `none` is `binascii.Error`.
unfoldable pub b64decode : String → Option (List ℕ)
b64decode String.[] = some []
b64decode (String.◌∷◌ c String.[]) = none
b64decode (String.◌∷◌ c (String.◌∷◌ d String.[])) = none
b64decode (String.◌∷◌ c (String.◌∷◌ d (String.◌∷◌ e String.[]))) = none
b64decode (String.◌∷◌ c (String.◌∷◌ d (String.◌∷◌ e (String.◌∷◌ f s)))) =
    let rest = b64decode s in
    if is_pad f then (if is_empty s then decode_last c d e else none) else decode_group c d e f rest
