-- ===== src/KnownHosts/Preferred/Known.antt =====
-- `known_public_key_algs` finds the algorithms of the entries for the host (src/known_hosts.rs).
use Prim.Native.Nat.{bit_or}
use openrussh_client.Prelude.{
  or_left, or_right, ℕ, List, [], ◌∷◌, ◌≡◌, refl, Bool, true, false, not, ◌&&◌, ◌||◌, any, arith,
  Bool-cases, inl, inr,
}
use openrussh_client.KnownHosts.Alg.{SigAlg, sig_other, mask, alg_eq, alg_eq_sound}
use openrussh_client.KnownHosts.Pattern.{HostPatterns}
use openrussh_client.KnownHosts.Entry.{
  of_alg, has_alg, LookupKey, pubkey, ca, lookup_lt, PreparedEntry,
}
use openrussh_client.KnownHosts.Entry.Search.{AllFrom, IsSorted}
use openrussh_client.KnownHosts.Preferred.{lacks, known_loop, known_round}
use openrussh_client.KnownHosts.Preferred.Mask.{IsMask, lacks_set, set-IsMask}

of_alg-below_ca :
    (a : SigAlg) (d : ℕ) (l : LookupKey) → lookup_lt l (ca d) ≡ false → of_alg a l ≡ false
of_alg-below_ca a d (pubkey b e) h = ground arith
of_alg-below_ca a d (ca e) h = refl

module _ (matched : HostPatterns → Bool) where
  -- An entry for the host with a public key of the algorithm.
  abbrev pub names : SigAlg → PreparedEntry → Bool
  names a e = of_alg a e.lookup && matched e.hosts

  pub names-after_ca :
      (a : SigAlg) (d : ℕ) (es : List PreparedEntry) → AllFrom (ca d) es → any (names a) es ≡ false
  names-after_ca a d [] h = refl
  names-after_ca a d (e ∷ es) (p, h) = rw (of_alg-below_ca a d e.lookup p) (names-after_ca a d es h)

  -- The mask is one, and has the bits of `k` and those of the algorithms of the entries for the host.
  abbrev pub IsKnown : List PreparedEntry → ℕ → ℕ → Type 0
  IsKnown es k r = IsMask r × ((b : SigAlg) → lacks r b ≡ lacks k b && not (any (names b) es))

  lacks_alg : (k : ℕ) (a b : SigAlg) → lacks k a ≡ false → alg_eq a b ≡ true → lacks k b ≡ false
  lacks_alg k a b h q = rw (alg_eq_sound a b q) at h

  round-IsKnown :
      (l : LookupKey) (hosts : HostPatterns) (es : List PreparedEntry)
      → AllFrom l es
      → of_alg sig_other l ≡ false
      → ((k : ℕ) → IsMask k → IsKnown es k (known_loop matched es k))
      → (k : ℕ) → IsMask k
      → IsKnown
          (record { lookup = l; hosts = hosts } ∷ es)
          k
          (known_round matched (known_loop matched es) l hosts k)
  round-IsKnown (ca d) hosts es from nm rest k m =
      (m, λ b. added (lacks k b) _ (names-after_ca b d es from))
    where
      added : (l r : Bool) → r ≡ false → l ≡ l && not (false || r)
      added l r q = ground arith
  round-IsKnown (pubkey a d) hosts es from nm rest k m =
      elim (Bool-cases (lacks k a && matched hosts)) [
        | inl c ↦
            let next = rest (bit_or k (mask a)) (set-IsMask k a m nm) in
            rw c (next.0, λ b. set b _ (next.1 b) c)
        | inr c ↦ let next = rest k m in rw c (next.0, λ b. unset b _ (next.1 b) c)
      ]
    where
      set :
          (b : SigAlg) (r : Bool)
          → r ≡ lacks (bit_or k (mask a)) b && not (any (names b) es)
          → lacks k a && matched hosts ≡ true
          → r ≡ lacks k b && not ((alg_eq a b && matched hosts) || any (names b) es)
      set b r q c = ground (arith, q, c, lacks_set k a b m)

      unset :
          (b : SigAlg) (r : Bool)
          → r ≡ lacks k b && not (any (names b) es)
          → lacks k a && matched hosts ≡ false
          → r ≡ lacks k b && not ((alg_eq a b && matched hosts) || any (names b) es)
      unset b r q c = ground (arith, q, c, lacks_alg k a b)

  -- On sorted entries whose algorithms all have a name.
  pub known_loop-IsKnown :
      (es : List PreparedEntry)
      → IsSorted es
      → has_alg sig_other es ≡ false
      → (k : ℕ) → IsMask k
      → IsKnown es k (known_loop matched es k)
  unfolding known_loop
  known_loop-IsKnown [] s nm k m = (m, λ b. and_true (lacks k b))
    where
      and_true : (l : Bool) → l ≡ l && true
      and_true l = ground arith
  known_loop-IsKnown (e ∷ es) (from, s) nm k m =
      round-IsKnown e.lookup e.hosts es from (or_left _ _ nm)
        (known_loop-IsKnown es s (or_right _ _ nm)) k m
