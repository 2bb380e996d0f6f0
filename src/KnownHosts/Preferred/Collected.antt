-- ===== src/KnownHosts/Preferred/Collected.antt =====
-- What `PreferredPublicKeyAlgIter` gives in all (src/known_hosts.rs).
use openrussh_client.Prelude.{
  or_left, or_right, ℕ, zero, suc, ◌+◌, ◌<◌, List, [], ◌∷◌, ◌++◌, ◌≡◌, refl, sym, ap, ◌∙◌, ◌⊎◌, inl,
  inr, true, false, ◌||◌, Option, some, arith, Bool-cases, ◌==◌, ltb, length, fun_ext,
}
use openrussh_client.KnownHosts.Alg.{Algorithm, SigAlg, sig_other, index, to_alg, alg_eq}
use openrussh_client.KnownHosts.Pattern.{HostPatterns}
use openrussh_client.KnownHosts.Entry.{LookupKey, pubkey, ca, lookup_lt, PreparedEntry}
use openrussh_client.KnownHosts.Entry.Search.{AllFrom, IsSorted, from_all}
use openrussh_client.KnownHosts.Handler.{is_pubkey}
use openrussh_client.KnownHosts.Preferred.{lacks, scan, next, collect}
use openrussh_client.KnownHosts.Entry.{of_alg, has_alg}
use openrussh_client.KnownHosts.Preferred.Order.{
  in_order, in_order-none, in_order-cons, to_alg_named,
}
use openrussh_client.KnownHosts.Preferred.Due.{
  iterator, unknown, NoPubkey, NoPubkey-behind, collect-unknown, due, IsAhead, due-skip,
  due-IsSplit,
}

module _ (known : ℕ) (is_some : (known == 0) ≡ false) where
  abbrev Collected : SigAlg → List PreparedEntry → List Algorithm → Option (List Algorithm) → Type 0
  Collected prev es preferred r = r ≡ some (in_order (due known prev es) ++ unknown known preferred)

  module _ (preferred : List Algorithm) where
    collect-nothing :
        (prev : SigAlg) (es : List PreparedEntry) (n : ℕ)
        → length preferred < n
        → NoPubkey es
        → Collected prev es preferred (collect n (iterator known es prev preferred))
    collect-nothing prev es n h p =
        collect-unknown known is_some preferred n es prev h p
        ∙ ap (λ l. some (l ++ unknown known preferred))
            (sym (in_order-none (due known prev es) nothing))
      where
        without : (a : SigAlg) (l : LookupKey) → is_pubkey l ≡ false → of_alg a l ≡ false
        without a (pubkey b d) q = absurd cc
        without a (ca d) q = refl

        none_has : (a : SigAlg) (es : List PreparedEntry) → NoPubkey es → has_alg a es ≡ false
        none_has a [] q = refl
        none_has a (e ∷ es) (q, r) = rw (without a e.lookup q) (none_has a es r)

        nothing : (a : SigAlg) → due known prev es a ≡ false
        nothing a = ground (arith, none_has a es p)

    abbrev entry : LookupKey → HostPatterns → PreparedEntry
    entry l hosts = record { lookup = l; hosts = hosts }

    next-skip :
        (a : SigAlg) (d : ℕ) (hosts : HostPatterns) (es : List PreparedEntry) (prev : SigAlg)
        → lacks known a || alg_eq a prev ≡ true
        → next (iterator known (entry (pubkey a d) hosts ∷ es) prev preferred)
          ≡ next (iterator known es prev preferred)
    unfolding next scan
    next-skip a d hosts es prev c = rw (is_some, c) refl

    next-emit :
        (a : SigAlg) (d : ℕ) (hosts : HostPatterns) (es : List PreparedEntry) (prev : SigAlg)
        (alg : Algorithm)
        → lacks known a || alg_eq a prev ≡ false
        → to_alg a ≡ some alg
        → next (iterator known (entry (pubkey a d) hosts ∷ es) prev preferred)
          ≡ some (some alg, iterator known es a preferred)
    unfolding next scan
    next-emit a d hosts es prev alg c t = rw (is_some, c, t) refl

    round-Collected :
        (l : LookupKey) (hosts : HostPatterns) (es : List PreparedEntry) (n : ℕ) (prev : SigAlg)
        → suc (length es + length preferred) < suc n
        → AllFrom l es
        → of_alg sig_other l ≡ false
        → (alg_eq prev sig_other ≡ true) ⊎ (lookup_lt l (pubkey prev 0) ≡ false)
        → IsAhead prev es
        → ((n : ℕ) (prev : SigAlg)
            → length es + length preferred < n
            → IsAhead prev es
            → Collected prev es preferred (collect n (iterator known es prev preferred)))
        → Collected prev
            (entry l hosts ∷ es)
            preferred
            (collect (suc n) (iterator known (entry l hosts ∷ es) prev preferred))
    unfolding collect
    round-Collected (ca d) hosts es n prev h from named ahead further rest =
        collect-nothing prev (entry (ca d) hosts ∷ es) (suc n) (omega arith)
          (refl, NoPubkey-behind d es from)
    round-Collected (pubkey a d) hosts es n prev h from named ahead further rest =
        elim (Bool-cases (lacks known a || alg_eq a prev)) [
          | inl c ↦ skipped c
          | inr c ↦ emitted c (to_alg_named a named)
        ]
      where
        skipped :
            lacks known a || alg_eq a prev ≡ true
            → Collected prev
                (entry (pubkey a d) hosts ∷ es)
                preferred
                (collect (suc n) (iterator known (entry (pubkey a d) hosts ∷ es) prev preferred))
        skipped c =
            rw (next-skip a d hosts es prev c) (rest (suc n) prev (omega arith) further)
            ∙ ap (λ p. some (in_order p ++ unknown known preferred))
                (fun_ext (λ x. sym (due-skip known prev a x es c)))

        sums :
            (alg_eq prev sig_other ≡ true) ⊎ (lookup_lt (pubkey a d) (pubkey prev 0) ≡ false)
            → (alg_eq prev sig_other ≡ true) ⊎ (ltb (index a) (index prev) ≡ false)
        sums (inl o) = inl o
        sums (inr b) = inr (ground arith)

        least : lookup_lt (pubkey a d) (pubkey a 0) ≡ false
        least = ground arith

        emitted :
            lacks known a || alg_eq a prev ≡ false
            → (alg : Algorithm) × (to_alg a ≡ some alg)
            → Collected prev
                (entry (pubkey a d) hosts ∷ es)
                preferred
                (collect (suc n) (iterator known (entry (pubkey a d) hosts ∷ es) prev preferred))
        emitted c (alg, t) =
            rw
              (
                next-emit a d hosts es prev alg c t,
                rest n a (omega arith) (inr (from_all (pubkey a 0) (pubkey a d) es least from)),
              )
              (ap (λ l. some (l ++ unknown known preferred))
                (sym (
                  in_order-cons _ (due known a es) a alg t
                    (due-IsSplit known prev a d es c from (sums ahead)))))

    -- Each algorithm of the mask that an entry has comes once, the most preferred first; then come
    -- the configured algorithms whose group is not in the mask.
    pub collect-Collected :
        (es : List PreparedEntry) (n : ℕ) (prev : SigAlg)
        → length es + length preferred < n
        → IsSorted es
        → has_alg sig_other es ≡ false
        → IsAhead prev es
        → Collected prev es preferred (collect n (iterator known es prev preferred))
    collect-Collected [] n prev h s named ahead = collect-nothing prev [] n (omega arith) tt
    collect-Collected (e ∷ es) zero prev h s named ahead = absurd (omega arith)
    collect-Collected (e ∷ es) (suc n) prev h (from, s) named ahead =
        round-Collected e.lookup e.hosts es n prev (omega arith) from (or_left _ _ named)
          (front ahead) (behind ahead)
          (λ m p k a. collect-Collected es m p k s (or_right _ _ named) a)
      where
        front :
            IsAhead prev (e ∷ es)
            → (alg_eq prev sig_other ≡ true) ⊎ (lookup_lt e.lookup (pubkey prev 0) ≡ false)
        front (inl o) = inl o
        front (inr (p, q)) = inr p

        behind : IsAhead prev (e ∷ es) → IsAhead prev es
        behind (inl o) = inl o
        behind (inr (p, q)) = inr q
