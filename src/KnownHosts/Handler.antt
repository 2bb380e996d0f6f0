-- ===== src/KnownHosts/Handler.antt =====
-- `KnownHosts::new` and the checks of `KnownHostsHandler` (src/known_hosts.rs).
pub mod Loaded
pub mod Check
pub mod Decide
pub mod WellFormed
use openrussh_client.Prelude.{
  ℕ, Text, List, [], ◌∷◌, ◌++◌, Bool, true, false, not, ◌&&◌, ◌||◌, Option, none, some, any, ◌==◌,
  if◌then◌else◌,
}
use openrussh_client.KnownHosts.Alg.{Algorithm, SigAlg, sig_other, from_alg, index, alg_eq}
use openrussh_client.KnownHosts.Pattern.{
  External, HostPatterns, normalize_host, host_matched_known_hosts, host_matched_principals,
  port_text,
}
use openrussh_client.KnownHosts.Entry.{
  Digest, LookupKey, pubkey, ca, PreparedEntry, sort_by_lookup, contains_entry,
}

pub data Marker : Type 0 where
  revoked cert_authority : Marker

-- `ssh_key::PublicKey`: what the code reads of it, its algorithm and the SHA-256 of its data.
pub record PublicKey : Type 0 where
  pub algorithm : Algorithm
  pub digest : Digest

-- An entry of a parsed `known_hosts` file.
pub record Entry : Type 0 where
  pub marker : Option Marker
  pub public_key : PublicKey
  pub hosts : HostPatterns

pub record KnownHosts : Type 0 where
  pub trusted_keys : Option (List PreparedEntry)
  pub revoked_keys : Option (List PreparedEntry)

-- `get_or_insert_default().push(entry)`
abbrev pub push : PreparedEntry → Option (List PreparedEntry) → Option (List PreparedEntry)
push e none = some (e ∷ [])
push e (some es) = some (es ++ e ∷ [])

abbrev pub lookup_of : PublicKey → LookupKey
lookup_of k = pubkey (from_alg k.algorithm) k.digest

-- One round of the `for` loop.
abbrev pub add_marked : Option Marker → Entry → KnownHosts → KnownHosts
add_marked (some revoked) e k = record k {
  revoked_keys = push (record { lookup = lookup_of e.public_key; hosts = e.hosts }) k.revoked_keys;
}
add_marked (some cert_authority) e k = record k {
  trusted_keys = push (record { lookup = ca e.public_key.digest; hosts = e.hosts }) k.trusted_keys;
}
add_marked none e k = if alg_eq (from_alg e.public_key.algorithm) sig_other then k else record k {
  trusted_keys = push (record { lookup = lookup_of e.public_key; hosts = e.hosts }) k.trusted_keys;
}

unfoldable pub collect : List Entry → KnownHosts → KnownHosts
collect [] k = k
collect (e ∷ es) k = collect es (add_marked e.marker e k)

abbrev pub sort_some : Option (List PreparedEntry) → Option (List PreparedEntry)
sort_some none = none
sort_some (some es) = some (sort_by_lookup es)

-- The entries are those that parsed: `filter_map(|entry| entry.ok())` has dropped the others.
unfoldable pub new : List Entry → KnownHosts
unfolding collect
new es =
    let k = collect es (record { trusted_keys = none; revoked_keys = none }) in
    record { trusted_keys = sort_some k.trusted_keys; revoked_keys = sort_some k.revoked_keys }

pub record Handler : Type 0 where
  pub trusted_keys : Option (List PreparedEntry)
  pub revoked_keys : Option (List PreparedEntry)
  pub host : Text
  pub port : ℕ

unfoldable pub handler : KnownHosts → Text → ℕ → Handler
handler k host port = record {
  trusted_keys = k.trusted_keys;
  revoked_keys = k.revoked_keys;
  host = normalize_host host;
  port = port;
}

pub data MatchResult : Type 0 where
  found not_found key_mismatch revoked principal_mismatch unknown_critical_options
        cert_not_verified :
      MatchResult

unfoldable pub is_found : MatchResult → Bool
is_found found = true
is_found _ = false

-- What the code reads of a `Certificate`; `is_valid` is the result of `validate` with the CA as the
-- only trusted fingerprint, which checks the signature and the time.
pub record Certificate : Type 0 where
  pub is_host : Bool
  pub has_critical_options : Bool
  pub valid_principals : List Text
  pub signature_key : PublicKey
  pub public_key : PublicKey
  pub algorithm : Algorithm
  pub is_valid : Digest → Bool

pub data ServerKey : Type 0 where
  plain_key : PublicKey → ServerKey
  certificate : Certificate → ServerKey

abbrev pub is_pubkey : LookupKey → Bool
is_pubkey (pubkey a d) = true
is_pubkey (ca d) = false

-- What `TrustedIter` iterates over.
abbrev pub entries_of : Option (List PreparedEntry) → List PreparedEntry
entries_of none = []
entries_of (some entries) = entries

-- `is_some_and`
abbrev pub some_and {ℓ} : {A : Type ℓ} → (A → Bool) → Option A → Bool
some_and p none = false
some_and p (some a) = p a

module _ (ext : External) where
  unfoldable pub host_matched : Handler → HostPatterns → Bool
  host_matched h hosts = host_matched_known_hosts ext h.host (port_text h.port) hosts

  unfoldable pub is_trusted : Handler → LookupKey → Bool
  is_trusted h lookup = some_and (λ es. contains_entry (host_matched h) es lookup) h.trusted_keys

  unfoldable pub is_revoked : Handler → LookupKey → Bool
  is_revoked h lookup = some_and (λ es. contains_entry (host_matched h) es lookup) h.revoked_keys

  unfoldable pub has_pubkeys : Handler → Bool
  has_pubkeys h = some_and (any (λ e. is_pubkey e.lookup && host_matched h e.hosts)) h.trusted_keys

  unfoldable pub check_public_key_impl : Handler → Digest → SigAlg → MatchResult
  unfolding is_revoked is_trusted has_pubkeys
  check_public_key_impl h d alg =
      if is_revoked h (pubkey alg d)
      then MatchResult.revoked
      else if not (alg_eq alg sig_other) && is_trusted h (pubkey alg d)
      then found
      else if has_pubkeys h
      then key_mismatch
      else not_found

  unfoldable pub check_public_key : Handler → PublicKey → MatchResult
  unfolding check_public_key_impl
  check_public_key h k = check_public_key_impl h k.digest (from_alg k.algorithm)

  unfoldable pub check_cert : Handler → Certificate → MatchResult
  unfolding is_revoked is_trusted check_public_key_impl
  check_cert h c =
      if not c.is_host
      then cert_not_verified
      else if c.has_critical_options
      then unknown_critical_options
      else if not (host_matched_principals ext h.host c.valid_principals)
      then principal_mismatch
      else if is_revoked h (lookup_of c.signature_key) || is_revoked h (lookup_of c.public_key)
      then MatchResult.revoked
      else if is_trusted h (ca c.signature_key.digest)
      then (if c.is_valid c.signature_key.digest
          then found
          else check_public_key_impl h c.public_key.digest (from_alg c.algorithm))
      else cert_not_verified

  unfoldable pub check_server_key : Handler → ServerKey → MatchResult
  unfolding check_public_key check_cert
  check_server_key h (plain_key k) = check_public_key h k
  check_server_key h (certificate c) = check_cert h c

  -- The `Handler` of russh accepts the server exactly if the key is found.
  unfoldable pub accepts : Handler → ServerKey → Bool
  unfolding check_server_key is_found
  accepts h k = is_found (check_server_key h k)
