-- ===== src/Child/Status.antt =====
-- The wait status that `cast_status` makes of an exit status (src/process/child.rs).
use Prim.Native.Nat.{bit_and, bit_and-bitwise, digits, min}
use openrussh_client.Prelude.{
  ℕ, zero, suc, ◌+◌, ◌*◌, ◌/◌, ◌%◌, ◌^◌, ◌≤◌, ◌<◌, ◌≡◌, refl, ap, ◌∙◌, arith,
}
use openrussh_client.Child.{cast_status}

-- The common digits of two numbers.
abbrev common : ℕ → ℕ → ℕ → ℕ
common n a m = digits (λ b. zero) min n a m

-- What is common with `m` is the rest by `size`.
abbrev IsMaskOf : ℕ → ℕ → Type 0
IsMaskOf m size =
    (n a : ℕ) → a ≤ n → (q : ℕ) × (a ≡ q * size + common n a m) × (common n a m < size)

min_zero : (a : ℕ) → min a 0 ≡ 0
min_zero a = omega arith

min_digit : (a : ℕ) → a < 2 → min a 1 ≡ a
min_digit a h = omega arith

nothing_common : (n a : ℕ) → common n a 0 ≡ 0
nothing_common zero a = refl
nothing_common (suc n) zero = refl
nothing_common (suc n) (suc a) = rw (nothing_common n (suc a / 2), min_zero (suc a % 2)) refl

IsMaskOf-zero : IsMaskOf 0 1
IsMaskOf-zero n a h = (a, omega (arith, nothing_common n a), omega (arith, nothing_common n a))

common-digit :
    (n a m : ℕ) → common (suc n) (suc a) (m * 2 + 1) ≡ common n (suc a / 2) m * 2 + suc a % 2
common-digit n a m =
    let half : (m * 2 + 1) / 2 ≡ m = omega arith in
    let odd : (m * 2 + 1) % 2 ≡ 1 = omega arith in
    rw (half, odd, min_digit (suc a % 2) (omega arith)) refl

IsMaskOf-double : (m size : ℕ) → IsMaskOf m size → IsMaskOf (m * 2 + 1) (size * 2)
IsMaskOf-double m size mask zero zero h = (0, omega arith, omega (arith, (mask 0 0 h).2))
IsMaskOf-double m size mask zero (suc a) h = absurd (omega arith)
IsMaskOf-double m size mask (suc n) zero h =
    (0, omega arith, omega (arith, (mask 0 0 (omega arith)).2))
IsMaskOf-double m size mask (suc n) (suc a) h =
    let (q, e, small) = mask n (suc a / 2) (omega arith) in
    (q, omega (arith, common-digit n a m, e), omega (arith, common-digit n a m, small))

eight_digits : IsMaskOf 0xff 256
eight_digits = IsMaskOf-double 127 128 (
    IsMaskOf-double 63 64 (
      IsMaskOf-double 31 32 (
        IsMaskOf-double 15 16 (
          IsMaskOf-double 7 8
            (IsMaskOf-double 3 4 (IsMaskOf-double 1 2 (IsMaskOf-double 0 1 IsMaskOf-zero)))))))

-- The wait status holds the lowest byte of the exit status, in its second byte.
pub cast_status_lem : (status : ℕ) → cast_status status ≡ status % 256 * 256
unfolding cast_status
cast_status_lem status =
    let (q, e, small) = eight_digits status status (omega arith) in
    let digits_of : bit_and status 0xff ≡ common status status 0xff =
      λ i. bit_and-bitwise status 0xff i in
    let lowest : common status status 0xff ≡ status % 256 = omega (arith, e, small) in
    ap (λ d. d * 2 ^ 8) (digits_of ∙ lowest)
