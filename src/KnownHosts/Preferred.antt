-- ===== src/KnownHosts/Preferred.antt =====
-- The preferred algorithms of a server's key (src/known_hosts.rs), with the crate's `rsa` feature on.
pub mod Mask
pub mod Known
pub mod Order
pub mod Due
pub mod Collected
pub mod Lines
mod Tests
use Prim.Native.Nat.{bit_and, bit_or}
use openrussh_client.Prelude.{
  ℕ, zero, suc, ◌+◌, Text, List, [], ◌∷◌, Bool, true, false, ◌&&◌, ◌||◌, not, Option, none, some,
  ◌==◌, length, if◌then◌else◌,
}
use openrussh_client.KnownHosts.Alg.{
  Algorithm, ed25519, ecdsa, nist_p521, nist_p384, nist_p256, rsa, sha256, sha512, SigAlg,
  sig_other, from_alg, to_alg, mask, alg_eq,
}
use openrussh_client.KnownHosts.Pattern.{External, HostPatterns}
use openrussh_client.KnownHosts.Entry.{LookupKey, pubkey, ca, PreparedEntry}
use openrussh_client.KnownHosts.Handler.{Handler, host_matched, entries_of}

-- `known & alg.mask() == 0`
abbrev pub lacks : ℕ → SigAlg → Bool
lacks known alg = bit_and known (mask alg) == 0

module _ (matched : HostPatterns → Bool) where
  -- A round of the `for` loop; `break` at a key of an authority.
  abbrev pub known_round : (ℕ → ℕ) → LookupKey → HostPatterns → ℕ → ℕ
  known_round rest (pubkey alg d) hosts known =
      rest (if lacks known alg && matched hosts then bit_or known (mask alg) else known)
  known_round rest (ca d) hosts known = known

  unfoldable pub known_loop : List PreparedEntry → ℕ → ℕ
  known_loop [] known = known
  known_loop (entry ∷ it) known = known_round (known_loop it) entry.lookup entry.hosts known

unfoldable pub known_public_key_algs : External → Handler → ℕ
unfolding known_loop
known_public_key_algs ext h = known_loop (host_matched ext h) (entries_of h.trusted_keys) 0

pub record PreferredPublicKeyAlgIter : Type 0 where
  pub known_mask : ℕ
  pub known_it : List PreparedEntry
  pub prev : SigAlg
  pub preferred : List Algorithm

abbrev pub is_none : PreferredPublicKeyAlgIter → Bool
is_none it = it.known_mask == 0

abbrev pub is_some : PreferredPublicKeyAlgIter → Bool
is_some it = not (is_none it)

-- The loop over `known_it`: the algorithm that it stops at and what is left of the iterator.
abbrev scan_round :
    ℕ
    → SigAlg
    → Option SigAlg × List PreparedEntry
    → LookupKey
    → List PreparedEntry
    → Option SigAlg × List PreparedEntry
scan_round known prev rest (pubkey alg d) it =
    if lacks known alg || alg_eq alg prev then rest else (some alg, it)
scan_round known prev rest (ca d) it = (none, it)

unfoldable pub scan : ℕ → SigAlg → List PreparedEntry → Option SigAlg × List PreparedEntry
scan known prev [] = (none, [])
scan known prev (entry ∷ it) = scan_round known prev (scan known prev it) entry.lookup it

-- The loop over `preferred`.
unfoldable pub pick : ℕ → List Algorithm → Option Algorithm × List Algorithm
pick known [] = (none, [])
pick known (alg ∷ it) =
    let rest = pick known it in if lacks known (from_alg alg) then (some alg, it) else rest

abbrev pub Item : Type 0
Item = Option Algorithm × PreferredPublicKeyAlgIter

abbrev after_pick : PreferredPublicKeyAlgIter → Option Algorithm × List Algorithm → Option Item
after_pick it (a, rest) = some (a, record it { preferred = rest })

abbrev returned : PreferredPublicKeyAlgIter → Option Algorithm → Option Item
returned it none = none
returned it (some a) = some (some a, it)

abbrev after_scan : PreferredPublicKeyAlgIter → Option SigAlg × List PreparedEntry → Option Item
after_scan it (some alg, rest) = returned (record it { known_it = rest; prev = alg }) (to_alg alg)
after_scan it (none, rest) =
    after_pick (record it { known_it = rest }) (pick it.known_mask it.preferred)

-- `PreferredPublicKeyAlgIter::next`; `none` is the panic of `to_alg`.
unfoldable pub next : PreferredPublicKeyAlgIter → Option Item
unfolding scan pick to_alg
next it =
    if is_none it then some (none, it) else after_scan it (scan it.known_mask it.prev it.known_it)

-- `Iterator::collect`, of at most so many items; `none` where `next` panics or there are more.
abbrev cons_some {ℓ} : {A : Type ℓ} → A → Option (List A) → Option (List A)
cons_some a none = none
cons_some a (some rest) = some (a ∷ rest)

abbrev pub collect_item :
    (PreferredPublicKeyAlgIter → Option (List Algorithm)) → Option Item → Option (List Algorithm)
collect_item rest none = none
collect_item rest (some (none, it)) = some []
collect_item rest (some (some a, it)) = cons_some a (rest it)

unfoldable pub collect : ℕ → PreferredPublicKeyAlgIter → Option (List Algorithm)
unfolding next
collect zero it = none
collect (suc n) it = collect_item (collect n) (next it)

-- `russh::Preferred`, as far as the code reads or writes it.
pub record Preferred : Type 0 where
  pub key : List Algorithm
  pub host_key_certificates : List Algorithm

-- `KnownHosts::preferred_cert_alg`
abbrev pub preferred_cert_alg : List Algorithm
preferred_cert_alg =
    ed25519
    ∷ ecdsa nist_p521
    ∷ ecdsa nist_p384
    ∷ ecdsa nist_p256
    ∷ rsa (some sha512)
    ∷ rsa (some sha256)
    ∷ []

unfoldable pub preferred_public_key_alg : External → Handler → Preferred → PreferredPublicKeyAlgIter
unfolding known_public_key_algs
preferred_public_key_alg ext h config = record {
  known_mask = known_public_key_algs ext h;
  known_it = entries_of h.trusted_keys;
  prev = sig_other;
  preferred = config.key;
}

-- More items than the iterator has.
abbrev pub size : PreferredPublicKeyAlgIter → ℕ
size it = suc (length it.known_it + length it.preferred)

abbrev pub replaced : Option (List Algorithm) → Option Preferred
replaced none = none
replaced (some key) = some (record { key = key; host_key_certificates = preferred_cert_alg })

-- `update_preferred_config`; `none` where the iterator panics.
unfoldable pub update_preferred_config : External → Handler → Preferred → Option Preferred
unfolding preferred_public_key_alg collect
update_preferred_config ext h config =
    let pubkeys = preferred_public_key_alg ext h config in
    if pubkeys.known_mask == 0
    then replaced (some config.key)
    else replaced (collect (size pubkeys) pubkeys)
