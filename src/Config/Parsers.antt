-- ===== src/Config/Parsers.antt =====
-- The functions of `parsers` (src/config.rs).
pub mod Fuel
pub mod Way
pub mod Login
use openrussh_client.Prelude.{
  rev, ℕ, zero, suc, Text, codes, List, [], ◌∷◌, ◌++◌, Bool, true, false, ◌&&◌, Option, none, some,
  text_eq, map_some, if◌then◌else◌,
}
use openrussh_client.KnownHosts.Pattern.{to_ascii_lowercase}
use openrussh_client.Auth.{AuthConfig, filter_map}
use openrussh_client.Config.Target.{Target, parse}
use openrussh_client.Config.Paths.{Env, expand_tilde, agent_from_env, parse_agent}
use openrussh_client.Config.{Dest, RequestTty, never, always, if_tty, for_shell, Host, Chain}

-- `ssh2_config::HostParams`, the fields that the code reads; `unsupported_fields` is its map.
pub record HostParams : Type 0 where
  pub host_name : Option Text
  pub port : Option ℕ
  pub user : Option Text
  pub identity_file : Option (List Text)
  pub certificate_file : Option Text
  pub proxy_jump : Option (List Text)
  pub unsupported_fields : Text → Option (List Text)

-- The only error of the parsers, `UserNotFound`.
pub data Parsed {ℓ} (A : Type ℓ) : Type ℓ where
  parsed : A → Parsed A
  user_not_found : Parsed A

abbrev pub or_else {ℓ} : {A : Type ℓ} → A → Option A → A
or_else a none = a
or_else a (some b) = b

unfoldable pub from_str : Text → RequestTty
unfolding to_ascii_lowercase
from_str s =
    if text_eq (to_ascii_lowercase s) (codes "no")
    then never
    else if text_eq (to_ascii_lowercase s) (codes "yes")
    then if_tty
    else if text_eq (to_ascii_lowercase s) (codes "force")
    then always
    else for_shell

abbrev first_tty : Option (List Text) → RequestTty
first_tty none = for_shell
first_tty (some []) = for_shell
first_tty (some (s ∷ ss)) = from_str s

unfoldable pub parse_tty : HostParams → RequestTty
unfolding from_str
parse_tty conf = first_tty (conf.unsupported_fields (codes "requesttty"))

abbrev pub first_is_yes : Option (List Text) → Bool
first_is_yes none = false
first_is_yes (some []) = false
first_is_yes (some (s ∷ ss)) = text_eq s (codes "yes")

module _ (env : Env) where
  abbrev pub first_agent : Option (List Text) → Option Text
  first_agent none = none
  first_agent (some []) = none
  first_agent (some (v ∷ vs)) = parse_agent env v

  abbrev pub agent_or_env : Option Text → Option Text
  agent_or_env none = agent_from_env env (codes "SSH_AUTH_SOCK")
  agent_or_env (some a) = some a

  abbrev pub expand_cert : Option Text → Option Text
  expand_cert none = none
  expand_cert (some c) = expand_tilde env c

  unfoldable pub parse_auth : HostParams → AuthConfig
  unfolding expand_tilde parse_agent agent_from_env
  parse_auth conf = record {
    identities = map_some (filter_map (expand_tilde env)) conf.identity_file;
    cert = expand_cert conf.certificate_file;
    agent = agent_or_env (first_agent (conf.unsupported_fields (codes "identityagent")));
    identities_only = first_is_yes (conf.unsupported_fields (codes "identitiesonly"));
    includes_none = true;
  }

  abbrev user_of : Option Text → Option Text → Option Text
  user_of (some user) target = some user
  user_of none (some user) = some user
  user_of none none = env.username

  abbrev dest_of : Text → ℕ → Option Text → Parsed Dest
  dest_of name port none = user_not_found
  dest_of name port (some user) = parsed (record { name = name; port = port; user = user })

  unfoldable pub parse_dest : HostParams → Target → Parsed Dest
  parse_dest conf target =
      dest_of (or_else target.host conf.host_name) (or_else (or_else 22 target.port) conf.port)
        (user_of conf.user target.user)

  abbrev host_of : HostParams → Parsed Dest → Parsed Host
  host_of conf user_not_found = user_not_found
  host_of conf (parsed dest) =
      parsed (record { dest = dest; auth = parse_auth conf; tty = parse_tty conf })

  unfoldable pub parse_host : HostParams → Target → Parsed Host
  unfolding parse_auth parse_dest parse_tty
  parse_host conf target = host_of conf (parse_dest conf target)

  -- `SshConfig::query`
  module _ (query : Text → HostParams) where
    unfoldable pub parse_bastion : Text → Parsed Host
    unfolding parse_host parse
    parse_bastion bastion = parse_host (query (parse bastion).host) (parse bastion)

    -- The `ProxyJump` of a bastion.
    unfoldable pub jump_of : Text → Option (List Text)
    unfolding parse
    jump_of bastion = (query (parse bastion).host).proxy_jump

    abbrev pub push_host : List Host → Parsed Host → Parsed (List Host)
    push_host bs user_not_found = user_not_found
    push_host bs (parsed h) = parsed (bs ++ h ∷ [])

    -- The `for` loop over `rest.iter().rev()`.
    unfoldable pub push_hosts : List Text → Parsed (List Host) → Parsed (List Host)
    unfolding parse_bastion
    push_hosts [] bs = bs
    push_hosts (b ∷ rest) user_not_found = user_not_found
    push_hosts (b ∷ rest) (parsed bs) = push_hosts rest (push_host bs (parse_bastion b))

    -- One round of the loop: the hosts of a `ProxyJump`, its last first.
    unfoldable pub jump : List Host → Text → List Text → Parsed (List Host)
    unfolding push_hosts
    jump bs first rest = push_hosts (rev rest ++ first ∷ []) (parsed bs)

    abbrev pub continue :
        (List Host → Option (Parsed (Option (List Host))))
        → Parsed (List Host)
        → Option (Parsed (Option (List Host)))
    continue loop user_not_found = some user_not_found
    continue loop (parsed bs) = loop bs

    -- The loop, `none` where the fuel is used up.
    unfoldable pub jump_loop :
        ℕ → Option (List Host) → Option (List Text) → Option (Parsed (Option (List Host)))
    unfolding jump jump_of
    jump_loop fuel bs none = some (parsed bs)
    jump_loop fuel bs (some []) = some (parsed bs)
    jump_loop zero bs (some (first ∷ rest)) = none
    jump_loop (suc fuel) bs (some (first ∷ rest)) =
        continue (λ hosts. jump_loop fuel (some hosts) (jump_of first))
          (jump (or_else [] bs) first rest)

    abbrev chain_of : Host → Option (Parsed (Option (List Host))) → Option (Parsed Chain)
    chain_of target none = none
    chain_of target (some user_not_found) = some user_not_found
    chain_of target (some (parsed bs)) = some (parsed (record { target = target; bastions = bs }))

    abbrev config_of : ℕ → Option (List Text) → Parsed Host → Option (Parsed Chain)
    config_of fuel first user_not_found = some user_not_found
    config_of fuel first (parsed target) = chain_of target (jump_loop fuel none first)

    unfoldable pub parse_config : ℕ → Target → Option (Parsed Chain)
    unfolding jump_loop parse_host
    parse_config fuel target =
        config_of fuel (query target.host).proxy_jump (parse_host (query target.host) target)

  -- `Target::query` and `Chain::new`; the first argument is the query of the configuration.
  abbrev pub query_chain : (Text → HostParams) → ℕ → Target → Option (Parsed Chain)
  query_chain query fuel target = parse_config query fuel target
