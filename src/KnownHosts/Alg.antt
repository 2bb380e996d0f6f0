-- ===== src/KnownHosts/Alg.antt =====
-- The signature algorithms of src/known_hosts.rs, with the crate's `rsa` feature on.
use openrussh_client.Prelude.{ℕ, ◌%◌, ◌^◌, ◌≡◌, Bool, true, Option, none, some, ◌==◌, arith}

-- The part of `ssh_key::Algorithm` that the code tells apart.
pub data EcdsaCurve : Type 0 where
  nist_p521 nist_p384 nist_p256 : EcdsaCurve

pub data HashAlg : Type 0 where
  sha256 sha512 : HashAlg

-- `other` stands for the algorithms that the code does not name, told apart by a number.
pub data Algorithm : Type 0 where
  ed25519 : Algorithm
  ecdsa : EcdsaCurve → Algorithm
  rsa : Option HashAlg → Algorithm
  other : ℕ → Algorithm

pub data SigAlg : Type 0 where
  sig_ed25519 ecdsa_p521 ecdsa_p384 ecdsa_p256 rsa_sha512 rsa_sha256 sig_other : SigAlg

-- `self as u8`
abbrev pub index : SigAlg → ℕ
index sig_ed25519 = 0
index ecdsa_p521 = 1
index ecdsa_p384 = 2
index ecdsa_p256 = 3
index rsa_sha512 = 4
index rsa_sha256 = 5
index sig_other = 6

-- `1 << shift` in a `u8`.
unfoldable pub mask : SigAlg → ℕ
mask a = 2 ^ index a % 256

unfoldable pub from_alg : Algorithm → SigAlg
from_alg ed25519 = sig_ed25519
from_alg (ecdsa nist_p521) = ecdsa_p521
from_alg (ecdsa nist_p384) = ecdsa_p384
from_alg (ecdsa nist_p256) = ecdsa_p256
from_alg (rsa (some sha512)) = rsa_sha512
from_alg (rsa (some sha256)) = rsa_sha256
from_alg (rsa none) = rsa_sha256
from_alg (other n) = sig_other

-- `none` is the `unreachable!()` of `Other`.
unfoldable pub to_alg : SigAlg → Option Algorithm
to_alg sig_ed25519 = some ed25519
to_alg ecdsa_p521 = some (ecdsa nist_p521)
to_alg ecdsa_p384 = some (ecdsa nist_p384)
to_alg ecdsa_p256 = some (ecdsa nist_p256)
to_alg rsa_sha512 = some (rsa (some sha512))
to_alg rsa_sha256 = some (rsa (some sha256))
to_alg sig_other = none

abbrev pub alg_eq : SigAlg → SigAlg → Bool
alg_eq a b = index a == index b

pub alg_eq_sound : (a b : SigAlg) → alg_eq a b ≡ true → a ≡ b
alg_eq_sound a b h = ground arith
