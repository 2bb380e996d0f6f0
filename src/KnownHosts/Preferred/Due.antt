-- ===== src/KnownHosts/Preferred/Due.antt =====
-- What is still to come of `PreferredPublicKeyAlgIter`, and its end (src/known_hosts.rs).
use openrussh_client.Prelude.{
  ℕ, zero, suc, ◌<◌, List, [], ◌∷◌, ◌≡◌, refl, ◌∙◌, ◌⊎◌, inl, inr, Bool, true, false, not, ◌&&◌,
  ◌||◌, All, none, some, arith, Bool-cases, ◌==◌, ltb, length, filter,
}
use openrussh_client.KnownHosts.Alg.{
  Algorithm, SigAlg, sig_other, index, from_alg, alg_eq, alg_eq_sound,
}
use openrussh_client.KnownHosts.Entry.{LookupKey, pubkey, ca, lookup_lt, PreparedEntry}
use openrussh_client.KnownHosts.Entry.Search.{AllFrom}
use openrussh_client.KnownHosts.Handler.{is_pubkey}
use openrussh_client.KnownHosts.Preferred.{
  lacks, PreferredPublicKeyAlgIter, scan, scan_round, pick, next, collect,
}
use openrussh_client.KnownHosts.Entry.{of_alg, has_alg}
use openrussh_client.KnownHosts.Preferred.Order.{IsSplit}

abbrev pub iterator : ℕ → List PreparedEntry → SigAlg → List Algorithm → PreferredPublicKeyAlgIter
iterator known entries prev preferred = record {
  known_mask = known;
  known_it = entries;
  prev = prev;
  preferred = preferred;
}

-- The part of the configured algorithms whose group is not known.
abbrev pub unknown : ℕ → List Algorithm → List Algorithm
unknown known = filter (λ alg. lacks known (from_alg alg))

abbrev pub NoPubkey : List PreparedEntry → Type 0
NoPubkey = All (λ e. is_pubkey e.lookup ≡ false)

pub NoPubkey-behind : (d : ℕ) (es : List PreparedEntry) → AllFrom (ca d) es → NoPubkey es
NoPubkey-behind d [] h = tt
NoPubkey-behind d (e ∷ es) (p, h) = (not_pubkey e.lookup p, NoPubkey-behind d es h)
  where
    not_pubkey : (l : LookupKey) → lookup_lt l (ca d) ≡ false → is_pubkey l ≡ false
    not_pubkey (pubkey a c) q = absurd cc
    not_pubkey (ca c) q = refl

abbrev pub IsAhead : SigAlg → List PreparedEntry → Type 0
IsAhead prev es = (alg_eq prev sig_other ≡ true) ⊎ AllFrom (pubkey prev 0) es

no_smaller :
    (a x : SigAlg) (d : ℕ) (es : List PreparedEntry)
    → AllFrom (pubkey a d) es
    → ltb (index x) (index a) ≡ true
    → has_alg x es ≡ false
no_smaller a x d [] h q = refl
no_smaller a x d (e ∷ es) (p, h) q = rw (differs e.lookup p) (no_smaller a x d es h q)
  where
    differs : (l : LookupKey) → lookup_lt l (pubkey a d) ≡ false → of_alg x l ≡ false
    differs (pubkey b c) r = ground arith
    differs (ca c) r = refl

module _ (known : ℕ) where
  -- Behind the public keys the loop gives nothing.
  scan-none :
      (prev : SigAlg) (es : List PreparedEntry)
      → NoPubkey es
      → (rest : List PreparedEntry) × (scan known prev es ≡ (none, rest)) × NoPubkey rest
  unfolding scan
  scan-none prev [] h = ([], refl, tt)
  scan-none prev (e ∷ es) (p, h) = (es, round e.lookup p, h)
    where
      round :
          (l : LookupKey)
          → is_pubkey l ≡ false
          → scan_round known prev (scan known prev es) l es ≡ (none, es)
      round (pubkey a d) q = absurd cc
      round (ca d) q = refl

  pub collect-unknown :
      (known == 0) ≡ false
      → (preferred : List Algorithm) (n : ℕ) (es : List PreparedEntry) (prev : SigAlg)
      → length preferred < n
      → NoPubkey es
      → collect n (iterator known es prev preferred) ≡ some (unknown known preferred)
  unfolding collect next pick
  collect-unknown is_some preferred zero es prev h p = absurd (omega arith)
  collect-unknown is_some [] (suc n) es prev h p =
      let stop = scan-none prev es p in rw (is_some, stop.1) refl
  collect-unknown is_some (alg ∷ preferred) (suc n) es prev h p =
      let stop = scan-none prev es p in
      elim (Bool-cases (lacks known (from_alg alg))) [
        | inl l ↦
            rw
              (
                is_some,
                stop.1,
                l,
                collect-unknown is_some preferred n stop.0 prev (omega arith) stop.2,
              )
              refl
        | inr l ↦
            let rest = collect-unknown is_some preferred (suc n) es prev (omega arith) p in
            rw l (passed stop.0 stop.1 l ∙ rest)
      ]
    where
      passed :
          (rest : List PreparedEntry)
          → scan known prev es ≡ (none, rest)
          → lacks known (from_alg alg) ≡ false
          → collect (suc n) (iterator known es prev (alg ∷ preferred))
            ≡ collect (suc n) (iterator known es prev preferred)
      passed rest s l = rw (is_some, s, l) refl

  -- What is still to come of the known algorithms.
  abbrev pub due : SigAlg → List PreparedEntry → SigAlg → Bool
  due prev es x = not (lacks known x) && (has_alg x es && not (alg_eq x prev))

  lacks_same : (a b : SigAlg) → alg_eq a b ≡ true → lacks known a ≡ lacks known b
  lacks_same a b q = rw (alg_eq_sound a b q) refl

  -- An entry that the loop passes over.
  pub due-skip :
      (prev a x : SigAlg) (es : List PreparedEntry)
      → lacks known a || alg_eq a prev ≡ true
      → not (lacks known x) && ((alg_eq a x || has_alg x es) && not (alg_eq x prev)) ≡ due prev es x
  due-skip prev a x es c = ground (arith, c, lacks_same a x)

  -- An entry whose algorithm the loop returns.
  pub due-IsSplit :
      (prev a : SigAlg) (d : ℕ) (es : List PreparedEntry)
      → lacks known a || alg_eq a prev ≡ false
      → AllFrom (pubkey a d) es
      → (alg_eq prev sig_other ≡ true) ⊎ (ltb (index a) (index prev) ≡ false)
      → IsSplit
          (λ x. not (lacks known x) && ((alg_eq a x || has_alg x es) && not (alg_eq x prev)))
          (due a es)
          a
  due-IsSplit prev a d es c from ahead = record {
    first = here (lacks known a) (has_alg a es) c;
    first_left = left (lacks known a) (has_alg a es);
    before = λ x q. before_here x (lacks known x) _ q (no_smaller a x d es from q);
    before_left = λ x q. before_there x (lacks known x) _ (no_smaller a x d es from q);
    behind = λ x q named. behind_here x (lacks known x) (has_alg x es) q named;
  }
    where
      here :
          (l h : Bool)
          → l || alg_eq a prev ≡ false
          → not l && ((alg_eq a a || h) && not (alg_eq a prev)) ≡ true
      here l h q = ground arith

      left : (l h : Bool) → not l && (h && not (alg_eq a a)) ≡ false
      left l h = ground arith

      before_here :
          (x : SigAlg) (l h : Bool)
          → ltb (index x) (index a) ≡ true
          → h ≡ false
          → not l && ((alg_eq a x || h) && not (alg_eq x prev)) ≡ false
      before_here x l h q r = ground arith

      before_there :
          (x : SigAlg) (l h : Bool) → h ≡ false → not l && (h && not (alg_eq x a)) ≡ false
      before_there x l h r = ground arith

      behind_here :
          (x : SigAlg) (l h : Bool)
          → ltb (index a) (index x) ≡ true
          → alg_eq x sig_other ≡ false
          → not l && ((alg_eq a x || h) && not (alg_eq x prev)) ≡ not l && (h && not (alg_eq x a))
      behind_here x l h q n = elim ahead [ inl o ↦ ground (arith, o) | inr b ↦ ground (arith, b) ]
