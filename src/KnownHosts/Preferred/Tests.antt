-- ===== src/KnownHosts/Preferred/Tests.antt =====
-- Runs of the preferred algorithms of src/known_hosts.rs, and the theorems at concrete inputs.
use openrussh_client.Prelude.{
  ℕ, Text, codes, List, [], ◌∷◌, ◌≡◌, ◌∙◌, refl, false, not, none, some, text_eq, ◌==◌, all,
}
use mathlib.Core.List.Perm
use openrussh_client.KnownHosts.SameLines.{
  SameLines, SameFor, Perm-SameLines, SameLines-SameFor, SameFor-other, check_server_key-same,
}
use openrussh_client.KnownHosts.Alg.{
  SigAlg, Algorithm, ed25519, ecdsa, nist_p521, nist_p256, rsa, sha256, sha512, other, mask,
  from_alg, to_alg,
}
use openrussh_client.KnownHosts.Pattern.{
  External, patterns, host_matched_known_hosts, rsplit_port, port_text, normalize_host,
}
use openrussh_client.KnownHosts.Entry.{sort_by_lookup}
use openrussh_client.KnownHosts.Handler.{
  Entry, new, handler, host_matched, ServerKey, check_server_key,
}
use openrussh_client.KnownHosts.Handler.Check.{loaded, matches}
use openrussh_client.KnownHosts.Handler.WellFormed.{IsWellFormed, new-IsWellFormed}
use openrussh_client.KnownHosts.Preferred.{
  Preferred, preferred_cert_alg, update_preferred_config, known_public_key_algs, lacks, collect,
  next,
}
use openrussh_client.KnownHosts.Preferred.Mask.{IsMask, named}
use openrussh_client.KnownHosts.Preferred.Lines.{
  knows, ordered, known_public_key_algs-IsMask, update_preferred_config-ordered,
}

abbrev exact : External
exact = record {
  glob_matches = λ p s. some (text_eq p s);
  hmac_matches = λ salt message hash. false;
}

abbrev line : Algorithm → ℕ → Text → Entry
line alg digest host = record {
  marker = none;
  public_key = record { algorithm = alg; digest = digest };
  hosts = patterns (host ∷ []);
}

abbrev lines : List Entry
lines =
    line (rsa none) 1 (codes "a")
    ∷ line (ecdsa nist_p521) 9 (codes "a")
    ∷ line (other 7) 5 (codes "a")
    ∷ line (ecdsa nist_p256) 3 (codes "b")
    ∷ line (ecdsa nist_p521) 4 (codes "a")
    ∷ []

abbrev config : Preferred
config = record {
  key = ed25519 ∷ rsa (some sha256) ∷ rsa (some sha512) ∷ ecdsa nist_p521 ∷ [];
  host_key_certificates = [];
}

known_first :
    update_preferred_config exact (handler (new lines) (codes "a") 22) config
    ≡ some (record {
      key = ecdsa nist_p521 ∷ rsa (some sha256) ∷ ed25519 ∷ rsa (some sha512) ∷ [];
      host_key_certificates = preferred_cert_alg;
    })
unfolding update_preferred_config collect next handler new sort_by_lookup host_matched
    host_matched_known_hosts rsplit_port port_text normalize_host from_alg to_alg mask
known_first = refl

known_public_key_algs-IsMask_example :
    IsMask (known_public_key_algs exact (loaded exact (codes "a") 22 lines))
    × ((a : SigAlg)
        → lacks (known_public_key_algs exact (loaded exact (codes "a") 22 lines)) a
          ≡ not (knows exact (codes "a") 22 lines a))
    × ((known_public_key_algs exact (loaded exact (codes "a") 22 lines) == 0)
        ≡ all (λ a. not (knows exact (codes "a") 22 lines a)) named)
known_public_key_algs-IsMask_example = known_public_key_algs-IsMask exact (codes "a") 22 lines

update_preferred_config-ordered_example :
    update_preferred_config exact (loaded exact (codes "a") 22 lines) config
    ≡ some (record {
      key = ordered exact (codes "a") 22 lines config.key;
      host_key_certificates = preferred_cert_alg;
    })
update_preferred_config-ordered_example =
    update_preferred_config-ordered exact (codes "a") 22 lines config

new-IsWellFormed_example : IsWellFormed (new lines)
new-IsWellFormed_example = new-IsWellFormed lines

-- The same lines, the first two of them the other way round.
abbrev swapped : List Entry
swapped =
    line (ecdsa nist_p521) 9 (codes "a")
    ∷ line (rsa none) 1 (codes "a")
    ∷ line (other 7) 5 (codes "a")
    ∷ line (ecdsa nist_p256) 3 (codes "b")
    ∷ line (ecdsa nist_p521) 4 (codes "a")
    ∷ []

lines-SameLines : SameLines swapped lines
lines-SameLines = Perm-SameLines (
    Perm.swap (line (rsa none) 1 (codes "a")) (line (ecdsa nist_p521) 9 (codes "a")) (
      line (other 7) 5 (codes "a")
      ∷ line (ecdsa nist_p256) 3 (codes "b")
      ∷ line (ecdsa nist_p521) 4 (codes "a")
      ∷ []))

-- And a line for another host.
abbrev with_other : List Entry
with_other = line (rsa none) 2 (codes "b") ∷ swapped

other_host : matches exact (codes "a") 22 (line (rsa none) 2 (codes "b")) ≡ false
unfolding matches host_matched_known_hosts rsplit_port port_text normalize_host
other_host = refl

with_other-SameFor : SameFor exact (codes "a") 22 with_other lines
with_other-SameFor p =
    SameFor-other exact (codes "a") 22 (line (rsa none) 2 (codes "b")) swapped other_host p
    ∙ SameLines-SameFor exact (codes "a") 22 swapped lines lines-SameLines p

check_server_key-same_example :
    ((key : ServerKey)
      → check_server_key exact (handler (new with_other) (codes "a") 22) key
        ≡ check_server_key exact (handler (new lines) (codes "a") 22) key)
    × ((config : Preferred)
        → update_preferred_config exact (handler (new with_other) (codes "a") 22) config
          ≡ update_preferred_config exact (handler (new lines) (codes "a") 22) config)
check_server_key-same_example =
    check_server_key-same exact (codes "a") 22 with_other lines with_other-SameFor
