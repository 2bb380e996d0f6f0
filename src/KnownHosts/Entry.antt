-- ===== src/KnownHosts/Entry.antt =====
-- Entries by lookup key, and the search among the sorted entries (src/known_hosts.rs).
pub mod Search
use openrussh_client.Prelude.{
  ℕ, zero, suc, Text, List, [], ◌∷◌, Bool, true, false, not, ◌&&◌, ◌||◌, Option, none, some, any,
  drop, ltb, ◌==◌, if◌then◌else◌,
}
use openrussh_client.KnownHosts.Alg.{SigAlg, index, alg_eq}
use openrussh_client.KnownHosts.Pattern.{HostPatterns}

-- A SHA-256 digest `[u8; 32]` as its big-endian number: the order of the arrays is the order of the
-- numbers.
abbrev pub Digest : Type 0
Digest = ℕ

pub data LookupKey : Type 0 where
  pubkey : SigAlg → Digest → LookupKey
  ca : Digest → LookupKey

-- The derived `Ord` and `PartialEq`: by variant, then by the fields in order.
abbrev pub lookup_lt : LookupKey → LookupKey → Bool
lookup_lt (pubkey a d) (pubkey b e) = ltb (index a) (index b) || (index a == index b && ltb d e)
lookup_lt (pubkey a d) (ca e) = true
lookup_lt (ca d) (pubkey b e) = false
lookup_lt (ca d) (ca e) = ltb d e

abbrev pub lookup_eq : LookupKey → LookupKey → Bool
lookup_eq (pubkey a d) (pubkey b e) = index a == index b && d == e
lookup_eq (pubkey a d) (ca e) = false
lookup_eq (ca d) (pubkey b e) = false
lookup_eq (ca d) (ca e) = d == e

pub record PreparedEntry : Type 0 where
  pub lookup : LookupKey
  pub hosts : HostPatterns

-- A public key of the algorithm.
abbrev pub of_alg : SigAlg → LookupKey → Bool
of_alg a (pubkey b d) = alg_eq b a
of_alg a (ca d) = false

abbrev pub has_alg : SigAlg → List PreparedEntry → Bool
has_alg a = any (λ e. of_alg a e.lookup)

insert : PreparedEntry → List PreparedEntry → List PreparedEntry
insert e [] = e ∷ []
insert e (x ∷ xs) =
    let rest = x ∷ insert e xs in if lookup_lt x.lookup e.lookup then rest else e ∷ x ∷ xs

-- `sort_unstable_by_key`: the order of entries with equal keys is left open by the standard library;
-- here it is the one of insertion sort.
unfoldable pub sort_by_lookup : List PreparedEntry → List PreparedEntry
unfolding insert
sort_by_lookup [] = []
sort_by_lookup (e ∷ es) = insert e (sort_by_lookup es)

-- `partition_point` on a partitioned slice: the number of entries in front for which `p` holds.
unfoldable pub partition_point : (PreparedEntry → Bool) → List PreparedEntry → ℕ
partition_point p [] = 0
partition_point p (e ∷ es) = let rest = suc (partition_point p es) in if p e then rest else 0

unfoldable pub take_while : (PreparedEntry → Bool) → List PreparedEntry → List PreparedEntry
take_while p [] = []
take_while p (e ∷ es) = let rest = e ∷ take_while p es in if p e then rest else []

-- `KnownHostsHandler::contains_entry`; `matched` is `host_matched` of the handler.
unfoldable pub contains_entry : (HostPatterns → Bool) → List PreparedEntry → LookupKey → Bool
unfolding partition_point take_while
contains_entry matched entries lookup =
    let start = partition_point (λ e. lookup_lt e.lookup lookup) entries in
    any (λ e. matched e.hosts) (take_while (λ e. lookup_eq e.lookup lookup) (drop start entries))
