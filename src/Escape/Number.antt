-- ===== src/Escape/Number.antt =====
-- Decimal numbers as `format_into` writes them (src/process/escape/primitives.rs).
use openrussh_client.Prelude.{
  ℕ, zero, suc, ◌+◌, ◌-◌, ◌*◌, ◌/◌, ◌%◌, ◌≤◌, ◌<◌, Text, [], ◌∷◌, ◌≡◌, All, arith, ltb, ap, ◌∙◌,
  ◌≢◌, Bool-cases, inl, inr, if◌then◌else◌,
}

-- `i8` to `i128` and `isize`: `negative n` is -(n + 1).
pub data Signed : Type 0 where
  nonnegative negative : ℕ → Signed

-- The digits, the last first; a round of fuel for each digit.
digits_loop : ℕ → ℕ → Text → Text
digits_loop zero n out = out
digits_loop (suc fuel) n out =
    let rest = digits_loop fuel (n / 10) ((b'0' + n % 10) ∷ out) in
    if ltb n 10 then (b'0' + n) ∷ out else rest

-- `n + 1` rounds are enough: each divides `n` by ten.
unfoldable pub format_into : ℕ → Text
unfolding digits_loop
format_into n = digits_loop (suc n) n []

unfoldable pub format_signed : Signed → Text
unfolding format_into
format_signed (Signed.nonnegative n) = format_into n
format_signed (Signed.negative n) = b'-' ∷ format_into (n + 1)

-- The number that decimal digits spell behind `n`.
abbrev pub value : ℕ → Text → ℕ
value n [] = n
value n (c ∷ s) = value (n * 10 + (c - b'0')) s

abbrev pub IsDigit : ℕ → Type 0
IsDigit c = (b'0' ≤ c) × (c ≤ b'9')

digits_loop-value :
    (fuel n : ℕ) (out : Text) → n < fuel → value 0 (digits_loop fuel n out) ≡ value n out
unfolding digits_loop
digits_loop-value zero n out h = absurd (omega arith)
digits_loop-value (suc fuel) n out h = elim (Bool-cases (ltb n 10)) [
  | inl last ↦ rw last (ap (λ (k : ℕ). value k out) (omega arith))
  | inr more ↦ rw more (
      digits_loop-value fuel (n / 10) ((b'0' + n % 10) ∷ out) (ground arith)
      ∙ ap (λ (k : ℕ). value k out) (omega arith))
]

digits_loop-digits :
    (fuel n : ℕ) (out : Text) → All IsDigit out → All IsDigit (digits_loop fuel n out)
unfolding digits_loop
digits_loop-digits zero n out h = h
digits_loop-digits (suc fuel) n out h = elim (Bool-cases (ltb n 10)) [
  | inl last ↦ rw last ((omega arith, ground arith), h)
  | inr more ↦
      rw more
        (digits_loop-digits fuel (n / 10) ((b'0' + n % 10) ∷ out) ((omega arith, omega arith), h))
]

pub format_into-value : (n : ℕ) → value 0 (format_into n) ≡ n
unfolding format_into
format_into-value n = digits_loop-value (suc n) n [] (omega arith)

pub format_into-digits : (n : ℕ) → All IsDigit (format_into n)
unfolding format_into
format_into-digits n = digits_loop-digits (suc n) n [] tt

digits_loop-ne-nil : (fuel n : ℕ) (out : Text) → out ≢ [] → digits_loop fuel n out ≢ []
unfolding digits_loop
digits_loop-ne-nil zero n out h = h
digits_loop-ne-nil (suc fuel) n out h =
    ground (arith, digits_loop-ne-nil fuel (n / 10) ((b'0' + n % 10) ∷ out))

-- At least one digit is printed.
pub format_into-ne-nil : (n : ℕ) → format_into n ≢ []
unfolding format_into digits_loop
format_into-ne-nil n = ground (arith, digits_loop-ne-nil n (n / 10) ((b'0' + n % 10) ∷ []))

-- `format_into` prints decimal digits only, and they spell the number: the loop does not run out.
pub format_into_lem : (n : ℕ) → (value 0 (format_into n) ≡ n) × All IsDigit (format_into n)
format_into_lem n = (format_into-value n, format_into-digits n)
