-- ===== src/KnownHosts/Preferred/Lines.antt =====
-- The preferred algorithms for a host, in terms of the lines of the known_hosts file
-- (src/known_hosts.rs).
use openrussh_client.Prelude.{
  ℕ, Text, List, [], ◌∷◌, ◌++◌, ◌≡◌, refl, sym, ap, ◌∙◌, inl, inr, Bool, true, false, not, ◌&&◌,
  any, all, Option, none, some, arith, Bool-cases, ◌==◌, filter, fun_ext,
}
use openrussh_client.KnownHosts.Alg.{
  Algorithm, SigAlg, sig_ed25519, ecdsa_p521, ecdsa_p384, ecdsa_p256, rsa_sha512, rsa_sha256,
  sig_other, from_alg, alg_eq, alg_eq_sound, mask,
}
use openrussh_client.KnownHosts.Pattern.{External, HostPatterns}
use openrussh_client.KnownHosts.Entry.{PreparedEntry}
use openrussh_client.KnownHosts.Entry.Search.{IsSorted}
use openrussh_client.KnownHosts.Handler.{
  Marker, revoked, cert_authority, Entry, new, handler, host_matched,
}
use openrussh_client.KnownHosts.Handler.WellFormed.{any-trusted, new-IsWellFormed}
use openrussh_client.KnownHosts.Handler.Loaded.{trusts}
use openrussh_client.KnownHosts.Handler.Check.{any-eq, names_key, matches, is_unmarked, loaded}
use openrussh_client.KnownHosts.Handler.{entries_of}
use openrussh_client.KnownHosts.Preferred.{
  lacks, known_public_key_algs, Preferred, preferred_cert_alg, preferred_public_key_alg, collect,
  size, update_preferred_config, replaced,
}
use openrussh_client.KnownHosts.Preferred.Mask.{IsMask, named, zero_lacks, lacks_other}
use openrussh_client.KnownHosts.Entry.{has_alg}
use openrussh_client.KnownHosts.Preferred.Known.{names, known_loop-IsKnown}
use openrussh_client.KnownHosts.Preferred.Order.{in_order, in_order-none}
use openrussh_client.KnownHosts.Preferred.Due.{unknown, due}
use openrussh_client.KnownHosts.Preferred.Collected.{collect-Collected}

none_lacks : (a : SigAlg) → lacks 0 a ≡ true
unfolding mask
none_lacks sig_ed25519 = refl
none_lacks ecdsa_p521 = refl
none_lacks ecdsa_p384 = refl
none_lacks ecdsa_p256 = refl
none_lacks rsa_sha512 = refl
none_lacks rsa_sha256 = refl
none_lacks sig_other = refl

filter-all :
    (p : Algorithm → Bool) (algs : List Algorithm)
    → ((a : Algorithm) → p a ≡ true)
    → filter p algs ≡ algs
filter-all p [] h = refl
filter-all p (a ∷ algs) h = rw (h a, filter-all p algs h) refl

each_named :
    (p : SigAlg → Bool) → all p named ≡ true → p sig_other ≡ true → (a : SigAlg) → p a ≡ true
each_named p h o sig_ed25519 = ground arith
each_named p h o ecdsa_p521 = ground arith
each_named p h o ecdsa_p384 = ground arith
each_named p h o ecdsa_p256 = ground arith
each_named p h o rsa_sha512 = ground arith
each_named p h o rsa_sha256 = ground arith
each_named p h o sig_other = o

any_of-names :
    (matched : HostPatterns → Bool) (a : SigAlg) (es : List PreparedEntry)
    → any (names matched a) es ≡ true
    → has_alg a es ≡ true
any_of-names matched a [] h = h
any_of-names matched a (e ∷ es) h = ground (arith, any_of-names matched a es)

module _ (ext : External) (host : Text) (port : ℕ) (es : List Entry) where
  -- A line without a marker for the host has a key of this algorithm, which has a name.
  abbrev pub knows : SigAlg → Bool
  knows a = any (λ e. alg_eq (from_alg e.public_key.algorithm) a && names_key ext host port e) es

  abbrev entries : List PreparedEntry
  entries = entries_of (loaded ext host port es).trusted_keys

  entries-IsSorted : IsSorted entries
  unfolding handler new
  entries-IsSorted = (new-IsWellFormed es).trusted_sorted

  any-entries : (p : PreparedEntry → Bool) → any p entries ≡ any (λ e. trusts p e.marker e) es
  unfolding handler
  any-entries p = any-trusted p es

  entries_named : has_alg sig_other entries ≡ false
  unfolding handler
  entries_named = (new-IsWellFormed es).trusted_named

  trusts-names :
      (m : HostPatterns → Bool) (a : SigAlg) (o : Option Marker) (e : Entry)
      → trusts (names m a) o e
        ≡ alg_eq (from_alg e.public_key.algorithm) a
          && (is_unmarked o
              && (not (alg_eq (from_alg e.public_key.algorithm) sig_other) && m e.hosts))
  trusts-names m a none e = ground arith
  trusts-names m a (some revoked) e = ground arith
  trusts-names m a (some cert_authority) e = ground arith

  entries-knows :
      (a : SigAlg) → any (names (host_matched ext (loaded ext host port es)) a) entries ≡ knows a
  unfolding handler new host_matched names_key matches
  entries-knows a =
      any-entries (names (host_matched ext (loaded ext host port es)) a)
      ∙ any-eq _ _ (λ e. trusts-names (host_matched ext (loaded ext host port es)) a e.marker e) es

  abbrev known : ℕ
  known = known_public_key_algs ext (loaded ext host port es)

  known-IsMask : IsMask known × ((a : SigAlg) → lacks known a ≡ not (knows a))
  unfolding known_public_key_algs
  known-IsMask =
      let all_known =
        known_loop-IsKnown (host_matched ext (loaded ext host port es)) entries entries-IsSorted
          entries_named 0 (omega arith) in
      (all_known.0, λ a. all_known.1 a ∙ rw (none_lacks a, entries-knows a) refl)

  -- The mask of known algorithms is below 64, so that the `u8` holds it, and has the bit of an
  -- algorithm exactly if a line without a marker for the host has a key of it and it has a name. In
  -- particular it is zero exactly if there is no such line.
  pub known_public_key_algs-IsMask :
      IsMask known
      × ((a : SigAlg) → lacks known a ≡ not (knows a))
      × ((known == 0) ≡ all (λ a. not (knows a)) named)
  known_public_key_algs-IsMask = (
    known-IsMask.0,
    known-IsMask.1,
    zero_lacks known known-IsMask.0 ∙ ap (λ p. all p named) (fun_ext known-IsMask.1),
  )

  and_unknown : (l k : Bool) → l ≡ not k → not l ≡ k
  and_unknown l k h = ground arith

  -- What is due at first is what the lines know.
  due-knows : (a : SigAlg) → due known sig_other entries a ≡ knows a
  due-knows a =
      at_first (lacks known a) _ _ (known-IsMask.1 a)
        (λ k. any_of-names _ a entries (entries-knows a ∙ k)) never_other
    where
      never_other : alg_eq a sig_other ≡ true → lacks known a ≡ true
      never_other q =
          ap (lacks known) (alg_eq_sound a sig_other q) ∙ lacks_other known known-IsMask.0

      at_first :
          (l h k : Bool)
          → l ≡ not k
          → (k ≡ true → h ≡ true)
          → (alg_eq a sig_other ≡ true → l ≡ true)
          → not l && (h && not (alg_eq a sig_other)) ≡ k
      at_first l h k p q r = ground arith

  -- The algorithms of the lines for the host, then those of the configuration that these lines do
  -- not know.
  abbrev pub ordered : List Algorithm → List Algorithm
  ordered key = in_order knows ++ filter (λ alg. not (knows (from_alg alg))) key

  update_none : (config : Preferred) → (known == 0) ≡ true → ordered config.key ≡ config.key
  update_none config z =
      rw (in_order-none knows unknown_here)
        (filter-all _ config.key (λ alg. rw (unknown_here (from_alg alg)) refl))
    where
      every : (a : SigAlg) → lacks known a ≡ true
      every =
          each_named (lacks known) (sym (zero_lacks known known-IsMask.0) ∙ z)
            (lacks_other known known-IsMask.0)

      turn : (l k : Bool) → l ≡ not k → l ≡ true → k ≡ false
      turn l k h t = ground arith

      unknown_here : (a : SigAlg) → knows a ≡ false
      unknown_here a = turn _ _ (known-IsMask.1 a) (every a)

  collected :
      (config : Preferred)
      → (known == 0) ≡ false
      → collect
          (size (preferred_public_key_alg ext (loaded ext host port es) config))
          (preferred_public_key_alg ext (loaded ext host port es) config)
        ≡ some (ordered config.key)
  unfolding preferred_public_key_alg
  collected config s =
      collect-Collected known s config.key entries
        (size (preferred_public_key_alg ext (loaded ext host port es) config)) sig_other
        (omega arith) entries-IsSorted entries_named (inl refl)
      ∙ ap (λ p. some (in_order p ++ unknown known config.key)) (fun_ext due-knows)
      ∙ ap (λ p. some (in_order knows ++ filter (λ alg. p (from_alg alg)) config.key))
          (fun_ext known-IsMask.1)

  -- The preference that is given to russh for a host, from the lines of a known_hosts file in any
  -- order: first each named algorithm of which a line without a marker for the host has a key, once
  -- and the most preferred first, then the algorithms of the configuration whose group no such line
  -- has, in their order; the algorithms of certificates are replaced. It never panics.
  pub update_preferred_config-ordered :
      (config : Preferred)
      → update_preferred_config ext (loaded ext host port es) config
        ≡ some (record { key = ordered config.key; host_key_certificates = preferred_cert_alg })
  unfolding update_preferred_config preferred_public_key_alg
  update_preferred_config-ordered config = elim (Bool-cases (known == 0)) [
    | inl z ↦ rw (z, update_none config z) refl
    | inr s ↦ taken s ∙ ap replaced (collected config s)
  ]
    where
      taken :
          (known == 0) ≡ false
          → update_preferred_config ext (loaded ext host port es) config
            ≡ replaced (
                collect
                  (size (preferred_public_key_alg ext (loaded ext host port es) config))
                  (preferred_public_key_alg ext (loaded ext host port es) config))
      taken s = rw s refl
