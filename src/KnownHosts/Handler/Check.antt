-- ===== src/KnownHosts/Handler/Check.antt =====
-- What the checks of `KnownHostsHandler` decide, in terms of the lines of the known_hosts file
-- (src/known_hosts.rs).
use openrussh_client.Prelude.{
  ℕ, Text, List, [], ◌∷◌, ◌≡◌, refl, sym, ◌∙◌, Bool, true, false, not, ◌&&◌, Option, none, some,
  any, ◌==◌,
}
use openrussh_client.KnownHosts.Alg.{SigAlg, sig_other, from_alg, alg_eq}
use openrussh_client.KnownHosts.Pattern.{
  External, HostPatterns, normalize_host, host_matched_known_hosts, port_text,
}
use openrussh_client.KnownHosts.Entry.{Digest, LookupKey, pubkey, ca, lookup_eq}
use openrussh_client.KnownHosts.Entry.Search.{hits}
use openrussh_client.KnownHosts.Handler.{
  Marker, revoked, cert_authority, Entry, lookup_of, new, Handler, handler, is_pubkey, host_matched,
  is_trusted, is_revoked, has_pubkeys,
}
use openrussh_client.KnownHosts.Handler.Loaded.{
  trusts, revokes, collect-trusted, collect-revoked, some_and-contains, some_and-sort,
}

abbrev pub marks_revoked : Option Marker → Bool
marks_revoked (some revoked) = true
marks_revoked _ = false

abbrev pub marks_authority : Option Marker → Bool
marks_authority (some cert_authority) = true
marks_authority _ = false

abbrev pub is_unmarked : Option Marker → Bool
is_unmarked none = true
is_unmarked (some _) = false

pub any-eq :
    (p q : Entry → Bool) → ((e : Entry) → p e ≡ q e) → (es : List Entry) → any p es ≡ any q es
any-eq p q h [] = refl
any-eq p q h (e ∷ es) = rw (h e, any-eq p q h es) refl

-- The lines of a file, as a host and a port see them.
module _ (ext : External) (host : Text) (port : ℕ) where
  -- The line is about this host.
  unfoldable pub matches : Entry → Bool
  matches e = host_matched_known_hosts ext (normalize_host host) (port_text port) e.hosts

  -- A line `@revoked` with the key.
  unfoldable pub revokes_key : LookupKey → Entry → Bool
  unfolding matches
  revokes_key k e = marks_revoked e.marker && (lookup_eq (lookup_of e.public_key) k && matches e)

  -- A line without a marker whose key is of an algorithm that is known.
  unfoldable pub names_key : Entry → Bool
  unfolding matches
  names_key e =
      is_unmarked e.marker
      && (not (alg_eq (from_alg e.public_key.algorithm) sig_other) && matches e)

  -- Such a line with the key.
  unfoldable pub trusts_key : LookupKey → Entry → Bool
  unfolding names_key
  trusts_key k e = lookup_eq (lookup_of e.public_key) k && names_key e

  -- A line `@cert-authority` whose key has the digest.
  unfoldable pub trusts_authority : Digest → Entry → Bool
  unfolding matches
  trusts_authority d e = marks_authority e.marker && (e.public_key.digest == d && matches e)

  swap_and : (a b c : Bool) → a && (b && c) ≡ b && (a && c)
  swap_and true b c = refl
  swap_and false true c = refl
  swap_and false false c = refl

  and_false : (a : Bool) → a && false ≡ false
  and_false true = refl
  and_false false = refl

  revokes-hits :
      (m : (HostPatterns → Bool)) (k : LookupKey) (o : Option Marker) (e : Entry)
      → revokes (hits m k) o e
        ≡ marks_revoked o && (lookup_eq (lookup_of e.public_key) k && m e.hosts)
  revokes-hits m k none e = refl
  revokes-hits m k (some revoked) e = refl
  revokes-hits m k (some cert_authority) e = refl

  -- A line of a certificate authority is never found as a public key.
  trusts-hits :
      (m : HostPatterns → Bool) (a : SigAlg) (d : Digest) (o : Option Marker) (e : Entry)
      → trusts (hits m (pubkey a d)) o e
        ≡ lookup_eq (lookup_of e.public_key) (pubkey a d)
          && (is_unmarked o
              && (not (alg_eq (from_alg e.public_key.algorithm) sig_other) && m e.hosts))
  trusts-hits m a d none e = swap_and _ (lookup_eq (lookup_of e.public_key) (pubkey a d)) _
  trusts-hits m a d (some revoked) e = sym (and_false _)
  trusts-hits m a d (some cert_authority) e = sym (and_false _)

  trusts-ca :
      (m : HostPatterns → Bool) (d : Digest) (o : Option Marker) (e : Entry)
      → trusts (hits m (ca d)) o e ≡ marks_authority o && (e.public_key.digest == d && m e.hosts)
  trusts-ca m d none e = and_false _
  trusts-ca m d (some revoked) e = refl
  trusts-ca m d (some cert_authority) e = refl

  trusts-pubkey :
      (m : HostPatterns → Bool) (o : Option Marker) (e : Entry)
      → trusts (λ p. is_pubkey p.lookup && m p.hosts) o e
        ≡ is_unmarked o && (not (alg_eq (from_alg e.public_key.algorithm) sig_other) && m e.hosts)
  trusts-pubkey m none e = refl
  trusts-pubkey m (some revoked) e = refl
  trusts-pubkey m (some cert_authority) e = refl

  module _ (es : List Entry) where
    abbrev pub loaded : Handler
    loaded = handler (new es) host port

    pub is_revoked-lines : (k : LookupKey) → is_revoked ext loaded k ≡ any (revokes_key k) es
    unfolding is_revoked handler new host_matched revokes_key matches
    is_revoked-lines k =
        some_and-contains (host_matched ext loaded) _ k
        ∙ collect-revoked (hits (host_matched ext loaded) k) es _
        ∙ any-eq _ (revokes_key k) (λ e. revokes-hits (host_matched ext loaded) k e.marker e) es

    pub is_trusted-lines :
        (a : SigAlg) (d : Digest)
        → is_trusted ext loaded (pubkey a d) ≡ any (trusts_key (pubkey a d)) es
    unfolding is_trusted handler new host_matched trusts_key names_key matches
    is_trusted-lines a d =
        some_and-contains (host_matched ext loaded) _ (pubkey a d)
        ∙ collect-trusted (hits (host_matched ext loaded) (pubkey a d)) es _
        ∙ any-eq _ (trusts_key (pubkey a d))
            (λ e. trusts-hits (host_matched ext loaded) a d e.marker e) es

    pub is_trusted-authority :
        (d : Digest) → is_trusted ext loaded (ca d) ≡ any (trusts_authority d) es
    unfolding is_trusted handler new host_matched trusts_authority matches
    is_trusted-authority d =
        some_and-contains (host_matched ext loaded) _ (ca d)
        ∙ collect-trusted (hits (host_matched ext loaded) (ca d)) es _
        ∙ any-eq _ (trusts_authority d) (λ e. trusts-ca (host_matched ext loaded) d e.marker e) es

    pub has_pubkeys-lines : has_pubkeys ext loaded ≡ any names_key es
    unfolding has_pubkeys handler new host_matched names_key matches
    has_pubkeys-lines =
        some_and-sort _ _
        ∙ collect-trusted (λ p. is_pubkey p.lookup && host_matched ext loaded p.hosts) es _
        ∙ any-eq _ names_key (λ e. trusts-pubkey (host_matched ext loaded) e.marker e) es
