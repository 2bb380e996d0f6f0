-- ===== src/Config/Tests.antt =====
-- Runs of the configuration's functions of src/config.rs, and the theorems at concrete inputs.
use openrussh_client.Prelude.{
  ◌↔◌, Bool-cases, inl, inr, ◌<◌, ℕ, Text, codes, List, [], ◌∷◌, ◌++◌, ◌≡◌, refl, true, false,
  Option, none, some, text_eq, if◌then◌else◌, length, arith,
}
use openrussh_client.Escape.Number.{format_into}
use openrussh_client.Config.Target.{Target, parse}
use openrussh_client.Config.Target.Printed.{parse-printed}
use openrussh_client.Config.Paths.{Env, expand_tilde, agent_from_env}
use openrussh_client.Config.Parsers.{
  HostParams, parse_auth, parse_config, parse_host, parsed, jump_of,
}
use openrussh_client.Config.Parsers.Fuel.{
  IsRanked, IsBelow, IsClosed, Returns, parse_config-Returns, parse_config-none,
}
use openrussh_client.Config.Parsers.Login.{Identities, Certificate, Agent, IsYes, parse_auth-Parsed}
use openrussh_client.Config.Parsers.Way.{Follows, parse_config-Follows}
use openrussh_client.Config.Route.{route, head_or, walk, hops, len_some, some_hosts, iter-route}
use openrussh_client.Config.{for_shell, Host, Chain, iter}

abbrev env : Env
env = record {
  username = some (codes "me");
  home_dir = some (codes "/home/me");
  var_os = λ key. if text_eq key (codes "SSH_AUTH_SOCK") then some (codes "/s") else none;
}

home_path : expand_tilde env (codes "~/.ssh//id/.") ≡ some (codes "/home/me/.ssh//id")
unfolding expand_tilde
home_path = refl

own_path : expand_tilde env (codes "~me/k") ≡ some (codes "/home/me/k")
unfolding expand_tilde
own_path = refl

foreign_path : expand_tilde env (codes "~you/k") ≡ none
unfolding expand_tilde
foreign_path = refl

abbrev params : Option (List Text) → HostParams
params jump = record {
  host_name = none;
  port = none;
  user = none;
  identity_file = none;
  certificate_file = none;
  proxy_jump = jump;
  unsupported_fields =
      λ key. if text_eq key (codes "identityagent") then some (codes "none" ∷ []) else none;
}

-- `c` jumps over `b`, and `b` over `a`.
abbrev jumps : Text → HostParams
jumps host =
    if text_eq host (codes "c")
    then params (some (codes "b" ∷ []))
    else if text_eq host (codes "b")
    then params (some (codes "x@a" ∷ []))
    else params none

-- Every host jumps over `a`.
abbrev cycle : Text → HostParams
cycle host = params (some (codes "a" ∷ []))

parsed_port :
    parse (codes "u@h:1:65535")
    ≡ record { host = codes "h:1"; port = some 65535; user = some (codes "u") }
unfolding parse
parsed_port = refl

overflown_port : parse (codes "h:65536") ≡ record { host = codes "h"; port = none; user = none }
unfolding parse
overflown_port = refl

parse-printed_example :
    parse (codes "u" ++ b'@' ∷ (codes "h:1" ++ b':' ∷ format_into 22))
    ≡ record { host = codes "h:1"; port = some 22; user = some (codes "u") }
parse-printed_example = parse-printed (codes "u") (codes "h:1") 22 (refl, tt) (omega arith)

abbrev rank_of : Text → ℕ
rank_of host = if text_eq host (codes "c") then 2 else if text_eq host (codes "b") then 1 else 0

abbrev rank : Text → ℕ
rank b = rank_of (parse b).host

b_below : rank (codes "b") < 2
unfolding parse
b_below = omega arith

a_below : rank (codes "x@a") < 1
unfolding parse
a_below = omega arith

jumps-IsBelow : (host : Text) → IsBelow env jumps rank (rank_of host) (jumps host).proxy_jump
jumps-IsBelow host = elim (Bool-cases (text_eq host (codes "c"))) [
  | inl c ↦ rw c b_below
  | inr c ↦ elim (Bool-cases (text_eq host (codes "b"))) [
    | inl d ↦ rw (c, d) a_below
    | inr d ↦ rw (c, d) tt
  ]
]

jumps-IsRanked : IsRanked env jumps rank
unfolding jump_of
jumps-IsRanked b = jumps-IsBelow (parse b).host

abbrev target : Target
target = record { host = codes "c"; port = none; user = none }

parse_config-Returns_example : Returns (parse_config env jumps 2 target)
parse_config-Returns_example = parse_config-Returns env jumps rank 2 target jumps-IsRanked b_below

-- The set of all hosts.
abbrev Anywhere : Text → Type 0
Anywhere b = Unit

cycle-IsClosed : IsClosed env cycle Anywhere
unfolding jump_of
cycle-IsClosed b h = tt

parse_config-none_example : parse_config env cycle 100 target ≡ none
parse_config-none_example =
    parse_config-none env cycle Anywhere (codes "me") refl 100 target cycle-IsClosed tt

-- `IdentityAgent none`, with an identity in the home directory.
abbrev params_with_key : HostParams
params_with_key = record {
  host_name = none;
  port = none;
  user = none;
  identity_file = some (codes "~/key" ∷ codes "~you/key" ∷ []);
  certificate_file = none;
  proxy_jump = none;
  unsupported_fields = (params none).unsupported_fields;
}

parse_auth-Parsed_example :
    Identities env
      (some (codes "~/key" ∷ codes "~you/key" ∷ []))
      (parse_auth env params_with_key).identities
    × Certificate env none (parse_auth env params_with_key).cert
    × Agent env (some (codes "none" ∷ [])) (parse_auth env params_with_key).agent
    × (((parse_auth env params_with_key).identities_only ≡ true) ↔ IsYes env none)
    × ((parse_auth env params_with_key).includes_none ≡ true)
parse_auth-Parsed_example = parse_auth-Parsed env params_with_key

agent_is_used : agent_from_env env (codes "SSH_AUTH_SOCK") ≡ some (codes "/s")
unfolding agent_from_env
agent_is_used = refl

abbrev host_named : Text → Host
host_named name = record {
  dest = record { name = name; port = 22; user = codes "u" };
  auth = record {
    includes_none = true;
    agent = none;
    identities = none;
    cert = none;
    identities_only = false;
  };
  tty = for_shell;
}

abbrev chain : Chain
chain = record {
  target = host_named (codes "t");
  bastions = some (host_named (codes "b") ∷ host_named (codes "a") ∷ []);
}

first_host : (iter chain).0.dest.name ≡ codes "a"
unfolding iter
first_host = refl

iter-route_example :
    ((iter chain).0 ≡ head_or chain.target (route chain))
    × (walk (iter chain).1 ≡ hops (route chain))
    × (len_some (iter chain).1 ≡ length (some_hosts chain.bastions))
iter-route_example = iter-route chain

-- A host that the configuration says no more of than its `ProxyJump`.
abbrev resolved : Text → Text → Host
resolved user name = record {
  dest = record { name = name; port = 22; user = user };
  auth = record {
    includes_none = true;
    agent = some (codes "/s");
    identities = none;
    cert = none;
    identities_only = false;
  };
  tty = for_shell;
}

abbrev way_to_c : Chain
way_to_c = record {
  target = resolved (codes "me") (codes "c");
  bastions = some (resolved (codes "me") (codes "b") ∷ resolved (codes "x") (codes "a") ∷ []);
}

c_is_parsed : parse_config env jumps 2 target ≡ some (parsed way_to_c)
unfolding parse_config parse_host parse_auth parse
c_is_parsed = refl

parse_config-Follows_example : Follows env jumps target way_to_c
parse_config-Follows_example = parse_config-Follows env jumps 2 target way_to_c c_is_parsed
