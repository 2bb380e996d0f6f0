-- ===== src/KnownHosts/Tests.antt =====
-- Runs of the checks of src/known_hosts.rs, and the theorems at concrete inputs.
use openrussh_client.Prelude.{
  codes, List, [], ◌∷◌, ◌++◌, ◌≡◌, refl, true, false, not, ◌&&◌, ◌||◌, none, some, any, text_eq,
  ◌==◌,
}
use openrussh_client.Escape.Number.{format_into}
use openrussh_client.KnownHosts.Alg.{ed25519, sig_other, from_alg, rsa, alg_eq}
use openrussh_client.KnownHosts.Pattern.{
  has_prefix, External, patterns, normalize_host, host_matched_principals, verify_plain,
  host_matched_known_hosts, rsplit_port, port_text,
}
use openrussh_client.KnownHosts.Pattern.Literal.{host_matched-literal}
use openrussh_client.KnownHosts.Pattern.Plain.{admits, excludes, verify_plain-any}
use openrussh_client.KnownHosts.Entry.{
  pubkey, ca, PreparedEntry, sort_by_lookup, contains_entry, ca,
}
use openrussh_client.KnownHosts.Entry.Search.{contains_entry-sort, hits}
use openrussh_client.KnownHosts.Handler.{
  revoked, cert_authority, PublicKey, Entry, lookup_of, new, handler, found, key_mismatch,
  MatchResult, Certificate, certificate, plain_key, check_public_key, check_server_key, accepts,
  host_matched,
}
use openrussh_client.KnownHosts.Monotone.{Extends-add, accepts-Extends}
use openrussh_client.KnownHosts.Handler.Check.{revokes_key, trusts_key, names_key, trusts_authority}
use openrussh_client.KnownHosts.Handler.Decide.{
  decide, check_public_key-decide, accepts-certificate, revokes_either, finds_plain,
}

-- A glob that knows `*` alone, and a keyed hash that joins the salt and the message.
abbrev simple : External
simple = record {
  glob_matches = λ p s. some (text_eq p (codes "*") || text_eq p s);
  hmac_matches = λ salt message hash. text_eq (salt ++ message) hash;
}

abbrev key1 : PublicKey
key1 = record { algorithm = ed25519; digest = 17 }

abbrev key2 : PublicKey
key2 = record { algorithm = rsa none; digest = 4 }

abbrev lines : List Entry
lines =
    record { marker = some cert_authority; public_key = key2; hosts = patterns (codes "*" ∷ []) }
    ∷ record { marker = none; public_key = key2; hosts = patterns (codes "b" ∷ codes "!a" ∷ []) }
    ∷ record {
      marker = none;
      public_key = key1;
      hosts = patterns (codes "[a]:2222" ∷ codes "a" ∷ []);
    }
    ∷ record { marker = some revoked; public_key = key1; hosts = patterns (codes "b" ∷ []) }
    ∷ []

key1_on_a : check_public_key simple (handler (new lines) (codes "[A]:22") 22) key1 ≡ found
unfolding check_public_key handler new from_alg contains_entry sort_by_lookup host_matched
    host_matched_known_hosts rsplit_port port_text normalize_host
key1_on_a = refl

key1_on_b : check_public_key simple (handler (new lines) (codes "b") 22) key1 ≡ MatchResult.revoked
unfolding check_public_key handler new from_alg contains_entry sort_by_lookup host_matched
    host_matched_known_hosts rsplit_port port_text normalize_host
key1_on_b = refl

key2_on_a : check_public_key simple (handler (new lines) (codes "a") 22) key2 ≡ key_mismatch
unfolding check_public_key handler new from_alg contains_entry sort_by_lookup host_matched
    host_matched_known_hosts rsplit_port port_text normalize_host
key2_on_a = refl

key1_at_port : check_public_key simple (handler (new lines) (codes "a") 2222) key1 ≡ found
unfolding check_public_key handler new from_alg contains_entry sort_by_lookup host_matched
    host_matched_known_hosts rsplit_port port_text normalize_host
key1_at_port = refl

check_public_key-decide_example :
    check_public_key simple (handler (new lines) (codes "a") 22) key1
    ≡ decide
        (any (revokes_key simple (codes "a") 22 (lookup_of key1)) lines)
        (not (alg_eq (from_alg key1.algorithm) sig_other)
          && any (trusts_key simple (codes "a") 22 (lookup_of key1)) lines)
        (any (names_key simple (codes "a") 22) lines)
check_public_key-decide_example = check_public_key-decide simple (codes "a") 22 lines key1

abbrev host_certificate : Certificate
host_certificate = record {
  is_host = true;
  has_critical_options = false;
  valid_principals = codes "a" ∷ [];
  signature_key = key2;
  public_key = key1;
  algorithm = ed25519;
  is_valid = λ d. true;
}

certificate_on_a :
    accepts simple (handler (new lines) (codes "a") 22) (certificate host_certificate) ≡ true
unfolding accepts handler new host_matched_principals normalize_host from_alg contains_entry
    sort_by_lookup host_matched host_matched_known_hosts rsplit_port port_text
certificate_on_a = refl

accepts-certificate_example :
    accepts simple (handler (new lines) (codes "a") 22) (certificate host_certificate)
    ≡ host_certificate.is_host
      && (not host_certificate.has_critical_options
          && (host_matched_principals simple
                (normalize_host (codes "a"))
                host_certificate.valid_principals
              && (not (revokes_either simple (codes "a") 22 lines host_certificate)
                  && (any
                        (trusts_authority simple
                          (codes "a")
                          22
                          host_certificate.signature_key.digest)
                        lines
                      && (host_certificate.is_valid host_certificate.signature_key.digest
                          || finds_plain simple (codes "a") 22 lines host_certificate)))))
accepts-certificate_example = accepts-certificate simple (codes "a") 22 lines host_certificate

abbrev unsorted : List PreparedEntry
unsorted =
    record { lookup = ca 3; hosts = patterns [] }
    ∷ record { lookup = pubkey (from_alg ed25519) 9; hosts = patterns (codes "a" ∷ []) }
    ∷ record { lookup = pubkey (from_alg ed25519) 2; hosts = patterns (codes "b" ∷ []) }
    ∷ []

contains_entry-sort_example :
    contains_entry (λ h. true) (sort_by_lookup unsorted) (pubkey (from_alg ed25519) 9)
    ≡ any (hits (λ h. true) (pubkey (from_alg ed25519) 9)) unsorted
contains_entry-sort_example = contains_entry-sort (λ h. true) unsorted (pubkey (from_alg ed25519) 9)

verify_plain-any_example :
    verify_plain simple (codes "a") none (codes "a" ∷ codes "!a" ∷ [])
    ≡ any (admits simple (codes "a") none) (codes "a" ∷ codes "!a" ∷ [])
      && not (any (excludes simple (codes "a") none) (codes "a" ∷ codes "!a" ∷ []))
verify_plain-any_example = verify_plain-any simple (codes "a") none (codes "a" ∷ codes "!a" ∷ [])

negated_last : verify_plain simple (codes "a") none (codes "a" ∷ codes "!a" ∷ []) ≡ false
unfolding verify_plain rsplit_port
negated_last = refl

host_matched-literal_example :
    (host_matched_known_hosts simple (codes "ab") (port_text 2222) (patterns (codes "ab" ∷ []))
      ≡ (2222 == 22) && text_eq (codes "ab") (codes "ab"))
    × (host_matched_known_hosts simple
          (codes "ab")
          (port_text 2222)
          (patterns ((codes "[" ++ (codes "ab" ++ (codes "]:" ++ format_into 2222))) ∷ []))
        ≡ (2222 == 2222) && text_eq (codes "ab") (codes "ab"))
unfolding has_prefix
host_matched-literal_example =
    host_matched-literal simple (codes "ab") (codes "ab") 2222 2222
      (((refl, refl), refl), (((refl, refl), refl), tt)) refl

-- A line for every host, with another key.
abbrev added : Entry
added = record { marker = none; public_key = key2; hosts = patterns (codes "*" ∷ []) }

key1_accepted : accepts simple (handler (new lines) (codes "[A]:22") 22) (plain_key key1) ≡ true
unfolding accepts check_server_key check_public_key handler new from_alg contains_entry
    sort_by_lookup host_matched host_matched_known_hosts rsplit_port port_text normalize_host
key1_accepted = refl

accepts-Extends_example :
    accepts simple (handler (new (added ∷ lines)) (codes "[A]:22") 22) (plain_key key1) ≡ true
accepts-Extends_example =
    accepts-Extends simple (codes "[A]:22") 22 lines (added ∷ lines) (Extends-add added lines refl)
      (plain_key key1) key1_accepted
