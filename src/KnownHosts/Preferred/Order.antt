-- ===== src/KnownHosts/Preferred/Order.antt =====
-- The algorithms that src/known_hosts.rs names, in the order of its preference.
use openrussh_client.Prelude.{
  List, [], ◌∷◌, ◌≡◌, refl, ap, Bool, true, false, some, ltb, cons_if, some_inj,
}
use openrussh_client.KnownHosts.Alg.{
  Algorithm, ed25519, ecdsa, nist_p521, nist_p384, nist_p256, rsa, sha256, sha512, SigAlg,
  sig_ed25519, ecdsa_p521, ecdsa_p384, ecdsa_p256, rsa_sha512, rsa_sha256, sig_other, index, to_alg,
  alg_eq,
}

-- The algorithms that the code names, the most preferred first.
abbrev pub ranked : List (SigAlg × Algorithm)
ranked =
    (sig_ed25519, ed25519)
    ∷ (ecdsa_p521, ecdsa nist_p521)
    ∷ (ecdsa_p384, ecdsa nist_p384)
    ∷ (ecdsa_p256, ecdsa nist_p256)
    ∷ (rsa_sha512, rsa (some sha512))
    ∷ (rsa_sha256, rsa (some sha256))
    ∷ []

abbrev select : (SigAlg → Bool) → List (SigAlg × Algorithm) → List Algorithm
select p [] = []
select p ((a, alg) ∷ rest) = cons_if (p a) alg (select p rest)

-- Those of the six in the set, the most preferred first.
unfoldable pub in_order : (SigAlg → Bool) → List Algorithm
in_order p = select p ranked

head_eq : {x y : Algorithm} {xs : List Algorithm} → x ≡ y → x ∷ xs ≡ y ∷ xs
head_eq {x} {y} {xs} h = ap (λ z. z ∷ xs) h

pub in_order-none : (p : SigAlg → Bool) → ((a : SigAlg) → p a ≡ false) → in_order p ≡ []
unfolding in_order
in_order-none p h =
    rw (h sig_ed25519, h ecdsa_p521, h ecdsa_p384, h ecdsa_p256, h rsa_sha512, h rsa_sha256) refl

-- `p` begins at `a`, and from there on `q` is the rest of it.
pub record IsSplit (p q : SigAlg → Bool) (a : SigAlg) : Type 0 where
  pub first : p a ≡ true
  pub first_left : q a ≡ false
  pub before : (x : SigAlg) → ltb (index x) (index a) ≡ true → p x ≡ false
  pub before_left : (x : SigAlg) → ltb (index x) (index a) ≡ true → q x ≡ false
  pub behind :
      (x : SigAlg) → ltb (index a) (index x) ≡ true → alg_eq x sig_other ≡ false → p x ≡ q x

pub in_order-cons :
    (p q : SigAlg → Bool) (a : SigAlg) (alg : Algorithm)
    → to_alg a ≡ some alg
    → IsSplit p q a
    → in_order p ≡ alg ∷ in_order q
unfolding to_alg in_order
in_order-cons p q sig_ed25519 alg e s =
    rw
      (
        s.first,
        s.first_left,
        s.behind ecdsa_p521 refl refl,
        s.behind ecdsa_p384 refl refl,
        s.behind ecdsa_p256 refl refl,
        s.behind rsa_sha512 refl refl,
        s.behind rsa_sha256 refl refl,
      )
      (head_eq (some_inj e))
in_order-cons p q ecdsa_p521 alg e s =
    rw
      (
        s.before sig_ed25519 refl,
        s.before_left sig_ed25519 refl,
        s.first,
        s.first_left,
        s.behind ecdsa_p384 refl refl,
        s.behind ecdsa_p256 refl refl,
        s.behind rsa_sha512 refl refl,
        s.behind rsa_sha256 refl refl,
      )
      (head_eq (some_inj e))
in_order-cons p q ecdsa_p384 alg e s =
    rw
      (
        s.before sig_ed25519 refl,
        s.before_left sig_ed25519 refl,
        s.before ecdsa_p521 refl,
        s.before_left ecdsa_p521 refl,
        s.first,
        s.first_left,
        s.behind ecdsa_p256 refl refl,
        s.behind rsa_sha512 refl refl,
        s.behind rsa_sha256 refl refl,
      )
      (head_eq (some_inj e))
in_order-cons p q ecdsa_p256 alg e s =
    rw
      (
        s.before sig_ed25519 refl,
        s.before_left sig_ed25519 refl,
        s.before ecdsa_p521 refl,
        s.before_left ecdsa_p521 refl,
        s.before ecdsa_p384 refl,
        s.before_left ecdsa_p384 refl,
        s.first,
        s.first_left,
        s.behind rsa_sha512 refl refl,
        s.behind rsa_sha256 refl refl,
      )
      (head_eq (some_inj e))
in_order-cons p q rsa_sha512 alg e s =
    rw
      (
        s.before sig_ed25519 refl,
        s.before_left sig_ed25519 refl,
        s.before ecdsa_p521 refl,
        s.before_left ecdsa_p521 refl,
        s.before ecdsa_p384 refl,
        s.before_left ecdsa_p384 refl,
        s.before ecdsa_p256 refl,
        s.before_left ecdsa_p256 refl,
        s.first,
        s.first_left,
        s.behind rsa_sha256 refl refl,
      )
      (head_eq (some_inj e))
in_order-cons p q rsa_sha256 alg e s =
    rw
      (
        s.before sig_ed25519 refl,
        s.before_left sig_ed25519 refl,
        s.before ecdsa_p521 refl,
        s.before_left ecdsa_p521 refl,
        s.before ecdsa_p384 refl,
        s.before_left ecdsa_p384 refl,
        s.before ecdsa_p256 refl,
        s.before_left ecdsa_p256 refl,
        s.before rsa_sha512 refl,
        s.before_left rsa_sha512 refl,
        s.first,
        s.first_left,
      )
      (head_eq (some_inj e))
in_order-cons p q sig_other alg e s = absurd cc

pub to_alg_named :
    (a : SigAlg) → alg_eq a sig_other ≡ false → (alg : Algorithm) × (to_alg a ≡ some alg)
unfolding to_alg
to_alg_named sig_ed25519 h = (_, refl)
to_alg_named ecdsa_p521 h = (_, refl)
to_alg_named ecdsa_p384 h = (_, refl)
to_alg_named ecdsa_p256 h = (_, refl)
to_alg_named rsa_sha512 h = (_, refl)
to_alg_named rsa_sha256 h = (_, refl)
to_alg_named sig_other h = absurd cc
