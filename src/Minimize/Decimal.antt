-- ===== src/Minimize/Decimal.antt =====
-- The number formats of scripts/minimize_mismatch.py: `f'0x{w:08x}'`, `f'{n:05d}'` and `str(n)`.
use ckb_vm_sail_verify.Base.{
  ℕ, zero, suc, ◌+◌, ◌/◌, ◌%◌, ◌^◌, ◌<◌, ◌≡◌, refl, String, ◌<>◌, [], ◌∷◌, get_or, ltb, ◌==◌,
  if◌then◌else◌, arith,
}

-- One digit below 16.
unfoldable pub digit : ℕ → String
digit n =
    get_or
      ("0" ∷ "1" ∷ "2" ∷ "3" ∷ "4" ∷ "5" ∷ "6" ∷ "7" ∷ "8" ∷ "9" ∷ "a" ∷ "b" ∷ "c" ∷ "d" ∷ "e" ∷ "f"
        ∷ [])
      n ""

-- f'0x{w:08x}' for a word of 32 bits, which is what the callers have checked
unfoldable pub hex_word : ℕ → String
unfolding digit
hex_word w =
    "0x"
    <> digit (w / 2 ^ 28 % 16)
    <> digit (w / 2 ^ 24 % 16)
    <> digit (w / 2 ^ 20 % 16)
    <> digit (w / 2 ^ 16 % 16)
    <> digit (w / 2 ^ 12 % 16)
    <> digit (w / 2 ^ 8 % 16)
    <> digit (w / 2 ^ 4 % 16)
    <> digit (w % 16)

-- The fuel bounds the number of digits.
pub digits_of : ℕ → ℕ → String
digits_of zero n = ""
digits_of (suc f) n =
    let rest = digits_of f (n / 10) in (if n / 10 == 0 then "" else rest) <> digit (n % 10)

-- str(n)
unfoldable pub decimal : ℕ → String
unfolding digits_of digit
decimal n = digits_of (n + 1) n

-- f'{n:05d}'
unfoldable pub decimal5 : ℕ → String
unfolding decimal
decimal5 n =
    (if ltb n 10
      then "0000"
      else if ltb n 100
      then "000"
      else if ltb n 1000
      then "00"
      else if ltb n 10000
      then "0"
      else "")
    <> decimal n

-- Any fuel above the number writes all of its digits.
pub digits_of-fuel : (f g n : ℕ) → n < f → n < g → digits_of f n ≡ digits_of g n
unfolding digits_of
digits_of-fuel zero g n h k = absurd (omega arith)
digits_of-fuel (suc f) zero n h k = absurd (omega arith)
digits_of-fuel (suc f) (suc g) n h k = ground (arith, digits_of-fuel f g (n / 10))

formats : (hex_word 0x00c58533 ≡ "0x00c58533") × (decimal 1207 ≡ "1207") × (decimal5 37 ≡ "00037")
unfolding hex_word decimal5
formats = (refl, refl, refl)
