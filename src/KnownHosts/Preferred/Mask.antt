-- ===== src/KnownHosts/Preferred/Mask.antt =====
-- The bits of the `u8` mask of known algorithms (src/known_hosts.rs).
use Prim.Native.Nat.{bit_and, bit_or}
use openrussh_client.Prelude.{
  ℕ, ◌%◌, ◌^◌, ◌<◌, ◌≡◌, refl, List, [], ◌∷◌, all, Bool, true, false, not, ◌&&◌, ltb, ◌==◌,
  holds_below, holds_below-at, arith,
}
use openrussh_client.KnownHosts.Alg.{
  SigAlg, sig_ed25519, ecdsa_p521, ecdsa_p384, ecdsa_p256, rsa_sha512, rsa_sha256, sig_other, index,
  mask, alg_eq,
}
use openrussh_client.KnownHosts.Preferred.{lacks}

-- A set of the six algorithms that the code names.
abbrev pub IsMask : ℕ → Type 0
IsMask known = known < 64

abbrev same : Bool → Bool → Bool
same true b = b
same false b = not b

same_sound : (a b : Bool) → same a b ≡ true → a ≡ b
same_sound a b h = ground arith

index_below : (a : SigAlg) → index a < 7
index_below sig_ed25519 = omega arith
index_below ecdsa_p521 = omega arith
index_below ecdsa_p384 = omega arith
index_below ecdsa_p256 = omega arith
index_below rsa_sha512 = omega arith
index_below rsa_sha256 = omega arith
index_below sig_other = omega arith

named_below : (a : SigAlg) → alg_eq a sig_other ≡ false → index a < 6
named_below a h = ground (arith, index_below a)

abbrev bit : ℕ → ℕ
bit i = 2 ^ i % 256

abbrev lacks_set_test : ℕ → ℕ → ℕ → Bool
lacks_set_test j i k =
    same (bit_and (bit_or k (bit i)) (bit j) == 0) ((bit_and k (bit j) == 0) && not (i == j))

lacks_set_all : holds_below (λ j. holds_below (λ i. holds_below (lacks_set_test j i) 64) 7) 7 ≡ true
unfolding holds_below
lacks_set_all = refl

-- Setting a bit sets that bit and no other.
pub lacks_set :
    (k : ℕ) (a b : SigAlg) → IsMask k → lacks (bit_or k (mask a)) b ≡ lacks k b && not (alg_eq a b)
unfolding mask
lacks_set k a b h = same_sound _ _ (
    holds_below-at (lacks_set_test (index b) (index a)) 64 k h (
      holds_below-at (λ i. holds_below (lacks_set_test (index b) i) 64) 7 (index a) (index_below a)
        (holds_below-at (λ j. holds_below (λ i. holds_below (lacks_set_test j i) 64) 7) 7 (index b)
          (index_below b) lacks_set_all)))

set_below_all : holds_below (λ i. holds_below (λ k. ltb (bit_or k (bit i)) 64) 64) 6 ≡ true
unfolding holds_below
set_below_all = refl

ltb_sound : (a b : ℕ) → ltb a b ≡ true → a < b
ltb_sound a b h = ground arith

-- The mask of a named algorithm keeps a mask a mask.
pub set-IsMask :
    (k : ℕ) (a : SigAlg) → IsMask k → alg_eq a sig_other ≡ false → IsMask (bit_or k (mask a))
unfolding mask
set-IsMask k a h n = ltb_sound _ 64 (
    holds_below-at (λ k. ltb (bit_or k (bit (index a))) 64) 64 k h
      (holds_below-at (λ i. holds_below (λ k. ltb (bit_or k (bit i)) 64) 64) 6 (index a)
        (named_below a n) set_below_all))

abbrev pub named : List SigAlg
named = sig_ed25519 ∷ ecdsa_p521 ∷ ecdsa_p384 ∷ ecdsa_p256 ∷ rsa_sha512 ∷ rsa_sha256 ∷ []

zero_all :
    holds_below
      (λ k. same (k == 0) (all (λ j. bit_and k (bit j) == 0) (0 ∷ 1 ∷ 2 ∷ 3 ∷ 4 ∷ 5 ∷ [])))
      64
    ≡ true
unfolding holds_below
zero_all = refl

-- A mask is zero exactly if it has none of the six bits.
pub zero_lacks : (k : ℕ) → IsMask k → (k == 0) ≡ all (lacks k) named
unfolding mask
zero_lacks k h = same_sound _ (all (lacks k) named) (
    holds_below-at
      (λ k. same (k == 0) (all (λ j. bit_and k (bit j) == 0) (0 ∷ 1 ∷ 2 ∷ 3 ∷ 4 ∷ 5 ∷ []))) 64 k h
      zero_all)

other_all : holds_below (λ k. bit_and k (bit 6) == 0) 64 ≡ true
unfolding holds_below
other_all = refl

-- The bit of the algorithms without a name is never set.
pub lacks_other : (k : ℕ) → IsMask k → lacks k sig_other ≡ true
unfolding mask
lacks_other k h = holds_below-at (λ k. bit_and k (bit 6) == 0) 64 k h other_all
