-- ===== src/Connect/Queried/Tests.antt =====
-- A query for a host behind another, and the connection to it.
use openrussh_client.Prelude.{
  true, false, Text, codes, List, [], ◌∷◌, ◌++◌, ◌≡◌, refl, none, some, text_eq, if◌then◌else◌,
}
use openrussh_client.Config.{for_shell, Host, Chain}
use openrussh_client.Config.Target.{Target, parse}
use openrussh_client.Config.Paths.{Env, agent_from_env}
use openrussh_client.Config.Parsers.{HostParams, parsed, parse_host, parse_auth, parse_config}
use openrussh_client.Config.Parsers.Way.{Way, Resolve}
use openrussh_client.Connect.{connect_impl}
use openrussh_client.Connect.Linked.{ArrivedBy}
use openrussh_client.Connect.Tests.{network, make_handler}
use openrussh_client.Connect.Queried.{connect_impl-queried}

abbrev pub env : Env
env = record { username = some (codes "me"); home_dir = none; var_os = λ key. none }

-- `t` jumps over `a`.
abbrev pub query : Text → HostParams
query host = record {
  host_name = none;
  port = none;
  user = none;
  identity_file = none;
  certificate_file = none;
  proxy_jump = if text_eq host (codes "t") then some (codes "a" ∷ []) else none;
  unsupported_fields = λ key. none;
}

abbrev resolved : Text → Host
resolved name = record {
  dest = record { name = name; port = 22; user = codes "me" };
  auth = record {
    includes_none = true;
    agent = none;
    identities = none;
    cert = none;
    identities_only = false;
  };
  tty = for_shell;
}

abbrev pub target : Target
target = record { host = codes "t"; port = none; user = none }

abbrev pub chain : Chain
chain = record { target = resolved (codes "t"); bastions = some (resolved (codes "a") ∷ []) }

pub t_is_parsed : parse_config env query 1 target ≡ some (parsed chain)
unfolding parse_config parse_host parse_auth parse agent_from_env
t_is_parsed = refl

connect_impl-queried_example :
    (names : List Text) × (hosts : List Host) × Way env query (query target.host).proxy_jump names
    × Resolve env query names hosts
    × (parse_host env (query target.host) target ≡ parsed chain.target)
    × ArrivedBy network make_handler
        (hosts ++ chain.target ∷ [])
        chain.target.tty
        0
        (connect_impl network make_handler chain 0)
connect_impl-queried_example =
    connect_impl-queried network make_handler env query 1 target chain t_is_parsed 0
