-- ===== src/KnownHosts/Pattern.antt =====
-- Host names and host patterns (src/known_hosts.rs): the handler's host, `verify_plain`,
-- `verify_hashed`, `matched_glob` and `host_matched_principals`.
pub mod Plain
pub mod Host
pub mod Literal
use openrussh_client.Prelude.{
  ℕ, ◌+◌, Text, codes, List, [], ◌∷◌, ◌++◌, Bool, true, false, not, ◌&&◌, ◌||◌, Option, none, some,
  any, leb, text_eq, ◌==◌, if◌then◌else◌,
}
use openrussh_client.Escape.Number.{format_into}

-- The crates `glob` and `hmac`: `glob_matches pattern needle` is `none` if the pattern is refused by
-- `Pattern::new`, else the result of `matches_with`; `hmac_matches salt message hash` says whether
-- HMAC-SHA1 of the message under the salt is the hash.
pub record External : Type 0 where
  pub glob_matches : Text → Text → Option Bool
  pub hmac_matches : Text → Text → Text → Bool

-- `ssh_key::known_hosts::HostPatterns`
pub data HostPatterns : Type 0 where
  patterns : List Text → HostPatterns
  hashed_name : Text → Text → HostPatterns

unfoldable pub trim_start_matches : ℕ → Text → Text
trim_start_matches c [] = []
trim_start_matches c (x ∷ s) = let rest = trim_start_matches c s in if x == c then rest else x ∷ s

-- The text up to the last byte that is not `c`.
unfoldable pub trim_end_matches : ℕ → Text → Text
trim_end_matches c [] = []
trim_end_matches c (x ∷ s) = elim (trim_end_matches c s) [
  | [] ↦ if x == c then [] else x ∷ []
  | y ∷ t ↦ x ∷ y ∷ t
]

unfoldable pub starts_with_colon : Text → Bool
starts_with_colon [] = false
starts_with_colon (x ∷ s) = x == b':'

-- `host.find("]:").map(|idx| &host[..idx]).unwrap_or(host)`
unfoldable pub before_port : Text → Text
unfolding starts_with_colon
before_port [] = []
before_port (x ∷ s) =
    let rest = x ∷ before_port s in if x == b']' && starts_with_colon s then [] else rest

unfoldable pub to_lower : ℕ → ℕ
to_lower c = if leb b'A' c && leb c b'Z' then c + 32 else c

unfoldable pub to_ascii_lowercase : Text → Text
unfolding to_lower
to_ascii_lowercase [] = []
to_ascii_lowercase (c ∷ s) = to_lower c ∷ to_ascii_lowercase s

-- The host that `KnownHostsHandler::new` keeps.
unfoldable pub normalize_host : Text → Text
unfolding trim_start_matches trim_end_matches before_port to_ascii_lowercase
normalize_host host =
    to_ascii_lowercase (trim_end_matches b']' (before_port (trim_start_matches b'[' host)))

abbrev drop_colon : Text → Option Text
drop_colon [] = none
drop_colon (x ∷ s) = if x == b':' then some s else none

-- `pat.rsplit_once("]:")`
unfoldable pub rsplit_port : Text → Option (Text × Text)
rsplit_port [] = none
rsplit_port (x ∷ s) = elim (rsplit_port s) [
  | some (a, b) ↦ some (x ∷ a, b)
  | none ↦ if x == b']' then (elim (drop_colon s) [ none ↦ none | some t ↦ some ([], t) ]) else none
]

-- `s.strip_prefix(c).unwrap_or(s)`
unfoldable pub strip_or : ℕ → Text → Text
strip_or c [] = []
strip_or c (x ∷ s) = if x == c then s else x ∷ s

unfoldable pub has_prefix : ℕ → Text → Bool
has_prefix c [] = false
has_prefix c (x ∷ s) = x == c

abbrev pub is_wildcard : ℕ → Bool
is_wildcard c = c == b'*' || c == b'?'

-- The loop over `match_indices(['[', ']'])`: `pending` is `pattern[start..idx]`, and `ret` is there
-- from the first bracket on.
unfoldable pub bracket_loop : Option Text → Text → Text → Option Text × Text
bracket_loop ret pending [] = (ret, pending)
bracket_loop ret pending (c ∷ s) =
    let escaped = if c == b'[' then codes "[[]" else codes "[]]" in
    let next : Text = elim ret [ none ↦ pending ++ escaped | some r ↦ (r ++ pending) ++ escaped ] in
    let bracket = bracket_loop (some next) [] s in
    let plain = bracket_loop ret (pending ++ c ∷ []) s in
    if c == b'[' || c == b']' then bracket else plain

unfoldable pub bracket_finish : Text → Option Text × Text → Text
bracket_finish pattern (none, rest) = pattern
bracket_finish pattern (some ret, rest) = ret ++ rest

unfoldable pub escape_brackets : Text → Text
unfolding bracket_loop bracket_finish
escape_brackets pattern = bracket_finish pattern (bracket_loop none [] pattern)

or_false : Option Bool → Bool
or_false none = false
or_false (some b) = b

module _ (ext : External) where
  unfoldable pub matched_glob : Text → Text → Bool
  unfolding escape_brackets or_false
  matched_glob needle pattern =
      if any is_wildcard pattern
      then or_false (ext.glob_matches (escape_brackets pattern) needle)
      else text_eq needle pattern

  unfoldable pub host_matched_principals : Text → List Text → Bool
  unfolding matched_glob
  host_matched_principals host [] = true
  host_matched_principals host (p ∷ ps) = any (matched_glob host) (p ∷ ps)

  -- Whether the pattern, without its `!`, matches: the two `continue`s before the host and the one
  -- behind it are the three ways to fail. The port is `none` for 22.
  unfoldable pub pattern_matches : Text → Option Text → Text → Bool
  unfolding matched_glob
  pattern_matches host port pat = elim (rsplit_port pat) [
    | some (host_pat, port_pat) ↦
        matched_glob (elim port [ none ↦ codes "22" | some p ↦ p ]) port_pat
        && matched_glob host (strip_or b'[' host_pat)
    | none ↦ elim port [ none ↦ matched_glob host pat | some p ↦ false ]
  ]

  unfoldable pub plain_loop : Text → Option Text → Bool → List Text → Bool
  unfolding pattern_matches has_prefix strip_or
  plain_loop host port some_matched [] = some_matched
  plain_loop host port some_matched (pat ∷ pats) =
      let matched = plain_loop host port true pats in
      let continue = plain_loop host port some_matched pats in
      if pattern_matches host port (strip_or b'!' pat)
      then (if has_prefix b'!' pat then false else matched)
      else continue

  unfoldable pub verify_plain : Text → Option Text → List Text → Bool
  unfolding plain_loop
  verify_plain host port [] = false
  verify_plain host port (pat ∷ pats) = plain_loop host port false (pat ∷ pats)

  hashed_message : Text → Option Text → Text
  hashed_message host none = host
  hashed_message host (some port) = codes "[" ++ (host ++ (codes "]:" ++ port))

  unfoldable pub verify_hashed : Text → Option Text → Text → Text → Bool
  unfolding hashed_message
  verify_hashed host port salt hash = ext.hmac_matches salt (hashed_message host port) hash

  unfoldable pub host_matched_known_hosts : Text → Option Text → HostPatterns → Bool
  unfolding verify_plain verify_hashed
  host_matched_known_hosts host port (patterns pats) = verify_plain host port pats
  host_matched_known_hosts host port (hashed_name salt hash) = verify_hashed host port salt hash

-- The port as it is compared: `none` for 22.
unfoldable pub port_text : ℕ → Option Text
unfolding format_into
port_text port = if port == 22 then none else some (format_into port)
