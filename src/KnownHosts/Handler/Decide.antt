-- ===== src/KnownHosts/Handler/Decide.antt =====
-- The decisions of `check_public_key` and `check_cert` on a file's lines (src/known_hosts.rs).
use openrussh_client.Prelude.{ℕ, Text, List, ◌≡◌, Bool, true, false, not, ◌&&◌, ◌||◌, any, arith}
use openrussh_client.KnownHosts.Alg.{SigAlg, sig_other, from_alg, alg_eq}
use openrussh_client.KnownHosts.Pattern.{External, normalize_host, host_matched_principals}
use openrussh_client.KnownHosts.Entry.{Digest, pubkey}
use openrussh_client.KnownHosts.Handler.{
  PublicKey, Entry, lookup_of, new, handler, MatchResult, found, not_found, key_mismatch,
  Certificate, certificate, check_public_key_impl, check_public_key, check_cert, check_server_key,
  accepts, is_found,
}
use openrussh_client.KnownHosts.Handler.Check.{
  revokes_key, trusts_key, trusts_authority, names_key, loaded, is_revoked-lines, is_trusted-lines,
  is_trusted-authority, has_pubkeys-lines,
}

-- The decision on a key, from three questions to the file.
abbrev pub decide : Bool → Bool → Bool → MatchResult
decide true trusted named = MatchResult.revoked
decide false true named = found
decide false false true = key_mismatch
decide false false false = not_found

module _ (ext : External) (host : Text) (port : ℕ) (es : List Entry) where
  impl-lines :
      (d : Digest) (a : SigAlg)
      → check_public_key_impl ext (loaded ext host port es) d a
        ≡ decide
            (any (revokes_key ext host port (pubkey a d)) es)
            (not (alg_eq a sig_other) && any (trusts_key ext host port (pubkey a d)) es)
            (any (names_key ext host port) es)
  unfolding check_public_key_impl
  impl-lines d a =
      rw
        (
          is_revoked-lines ext host port es (pubkey a d),
          is_trusted-lines ext host port es a d,
          has_pubkeys-lines ext host port es,
        )
        (ground arith)

  -- The check of a public key for a host and port, on the parsed lines of a known_hosts file in any
  -- order: `revoked` if a `@revoked` line for the host has the key; else `found` if the key's
  -- algorithm is known and a line without a marker for the host has the key; else `key_mismatch` if a
  -- line without a marker for the host has a key of a known algorithm; else `not_found`.
  pub check_public_key-decide :
      (k : PublicKey)
      → check_public_key ext (handler (new es) host port) k
        ≡ decide
            (any (revokes_key ext host port (lookup_of k)) es)
            (not (alg_eq (from_alg k.algorithm) sig_other)
              && any (trusts_key ext host port (lookup_of k)) es)
            (any (names_key ext host port) es)
  unfolding check_public_key
  check_public_key-decide k = impl-lines k.digest (from_alg k.algorithm)

  abbrev pub revokes_either : Certificate → Bool
  revokes_either c =
      any (revokes_key ext host port (lookup_of c.signature_key)) es
      || any (revokes_key ext host port (lookup_of c.public_key)) es

  -- The key of the certificate is found as a public key.
  abbrev pub finds_plain : Certificate → Bool
  finds_plain c = is_found (
      decide
        (any (revokes_key ext host port (pubkey (from_alg c.algorithm) c.public_key.digest)) es)
        (not (alg_eq (from_alg c.algorithm) sig_other)
          && any (trusts_key ext host port (pubkey (from_alg c.algorithm) c.public_key.digest)) es)
        (any (names_key ext host port) es))

  -- A server's certificate is accepted exactly if it is a host certificate without critical options
  -- whose principals match the host, no `@revoked` line for the host has its signing key or its key, a
  -- `@cert-authority` line for the host has its signing key, and the certificate is valid under that
  -- key or its own key is found as a public key.
  pub accepts-certificate :
      (c : Certificate)
      → accepts ext (handler (new es) host port) (certificate c)
        ≡ c.is_host
          && (not c.has_critical_options
              && (host_matched_principals ext (normalize_host host) c.valid_principals
                  && (not (revokes_either c)
                      && (any (trusts_authority ext host port c.signature_key.digest) es
                          && (c.is_valid c.signature_key.digest || finds_plain c)))))
  unfolding accepts check_server_key check_cert is_found handler
  accepts-certificate c =
      rw
        (
          is_revoked-lines ext host port es (lookup_of c.signature_key),
          is_revoked-lines ext host port es (lookup_of c.public_key),
          is_trusted-authority ext host port es c.signature_key.digest,
          impl-lines c.public_key.digest (from_alg c.algorithm),
        )
        (ground arith)
