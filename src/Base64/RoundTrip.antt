-- ===== src/Base64/RoundTrip.antt =====
-- Decoding what was encoded.
use open_key_server.Base.{
  ℕ, zero, suc, ◌+◌, ◌/◌, ◌%◌, ◌*◌, ◌<◌, ◌≡◌, refl, Bool, true, false, not, if◌then◌else◌, some,
  List, [], ◌∷◌, All, arith, ◌==◌, option_eq, nat_eq, option_beq_iff,
}
use Prim.Native.Char.{code}
use open_key_server.Base64.{digit, digit_value, b64encode, b64decode}

-- A test of every digit value up to a bound, by evaluation.
checks : (ℕ → Bool) → ℕ → Bool
checks test zero = true
checks test (suc top) = if test top then checks test top else false

checks-at : (test : ℕ → Bool) (top v : ℕ) → v < top → checks test top ≡ true → test v ≡ true
unfolding checks
checks-at test zero v below all = elim below [ ]
checks-at test (suc top) v below all = ground (arith, checks-at test top v)

digits_table : checks (λ n. digit_value (digit n) == some n) 64 ≡ true
unfolding checks digit digit_value
digits_table = refl

digit_value-digit : (n : ℕ) → n < 64 → digit_value (digit n) ≡ some n
digit_value-digit n h = (option_beq_iff _ _).0 (checks-at _ 64 n h digits_table)

no_pad_table : checks (λ n. not (code (digit n) == 61)) 64 ≡ true
unfolding checks digit
no_pad_table = refl

digit-ne-pad : (n : ℕ) → n < 64 → (code (digit n) == 61) ≡ false
digit-ne-pad n h =
    let t = checks-at (λ n. not (code (digit n) == 61)) 64 n h no_pad_table in ground arith

abbrev pub IsByte : ℕ → Type 0
IsByte n = n < 256

-- Decoding what was encoded gives the bytes back.
pub b64decode-b64encode :
    (bytes : List ℕ) → All IsByte bytes → b64decode (b64encode bytes) ≡ some bytes
unfolding b64decode b64encode
b64decode-b64encode [] h = refl
b64decode-b64encode (a ∷ []) h =
    rw (digit_value-digit (a / 4) (omega arith), digit_value-digit (a % 4 * 16) (omega arith))
      (ground arith)
b64decode-b64encode (a ∷ b ∷ []) h =
    rw
      (
        digit-ne-pad (b % 16 * 4) (omega arith),
        digit_value-digit (a / 4) (omega arith),
        digit_value-digit (a % 4 * 16 + b / 16) (omega arith),
        digit_value-digit (b % 16 * 4) (omega arith),
      )
      (ground arith)
b64decode-b64encode (a ∷ b ∷ c ∷ bytes) (ha, (hb, (hc, hs))) =
    rw
      (
        digit-ne-pad (c % 64) (omega arith),
        digit_value-digit (a / 4) (omega arith),
        digit_value-digit (a % 4 * 16 + b / 16) (omega arith),
        digit_value-digit (b % 16 * 4 + c / 64) (omega arith),
        digit_value-digit (c % 64) (omega arith),
        b64decode-b64encode bytes hs,
      )
      (ground arith)
