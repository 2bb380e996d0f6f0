-- ===== src/Connect/Queried.antt =====
-- From a target's name and the configuration to a connection: src/config.rs and src/connect.rs
-- together.
pub mod Tests
use openrussh_client.Prelude.{ℕ, Text, List, [], ◌∷◌, ◌++◌, ◌≡◌, Option, some, M}
use openrussh_client.Config.{Host, Chain}
use openrussh_client.Config.Target.{Target}
use openrussh_client.Config.Paths.{Env}
use openrussh_client.Config.Parsers.{HostParams, parsed, parse_host, parse_config}
use openrussh_client.Config.Parsers.Way.{Way, Resolve, parse_config-Follows}
use openrussh_client.Connect.{Context, Network, connect_impl}
use openrussh_client.Connect.Linked.{ArrivedBy, connect_impl-Arrived}

module _ {S K O H C A E R F : Type 0} (net : Network S K O H C A E R)
    (make_handler : Host → M S F (Context K O)) (env : Env) (query : Text → HostParams) where
  -- A connection to the chain that a query for a target gives is made through the hosts of the
  -- names on the way that the `ProxyJump`s of the configuration ask for, in order, and then to the
  -- target as it was asked for, with its setting for a terminal; or it stopped at one of these
  -- hosts, behind connections to all before it.
  pub connect_impl-queried :
      (fuel : ℕ) (target : Target) (c : Chain)
      → parse_config env query fuel target ≡ some (parsed c)
      → (s : S)
      → (names : List Text) × (hosts : List Host) × Way env query
          (query target.host).proxy_jump
          names
        × Resolve env query names hosts
        × (parse_host env (query target.host) target ≡ parsed c.target)
        × ArrivedBy net make_handler
            (hosts ++ c.target ∷ [])
            c.target.tty
            s
            (connect_impl net make_handler c s)
  connect_impl-queried fuel target c e s =
      let way = parse_config-Follows env query fuel target c e in
      let arrived = connect_impl-Arrived net make_handler c s in
      (way.0, way.1, way.2, way.3, way.4, rw way.5 at arrived)
