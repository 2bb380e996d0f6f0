-- ===== src/Connect/Made.antt =====
-- The implementations of `MakeHandler` (src/connect.rs, src/known_hosts.rs).
use openrussh_client.Prelude.{List, ◌≡◌, ap, Option, some, map_some, M, pure}
use openrussh_client.Config.{Host}
use openrussh_client.KnownHosts.Pattern.{External}
use openrussh_client.KnownHosts.Handler.{Entry, KnownHosts, Handler, new, handler}
use openrussh_client.KnownHosts.Preferred.{Preferred, preferred_cert_alg, update_preferred_config}
use openrussh_client.KnownHosts.Preferred.Lines.{ordered, update_preferred_config-ordered}
use openrussh_client.Connect.{Context, Infallible}

-- `ContextCloner::make_handler`
unfoldable pub cloner : {S K O : Type 0} → Context K O → Host → M S Infallible (Context K O)
cloner ctx host = pure ctx

-- `KnownHosts::make_handler`, where the default configuration prefers these algorithms; `none` is a
-- panic.
unfoldable pub known_hosts :
    External → KnownHosts → Preferred → Host → Option (Context Handler Preferred)
known_hosts ext k default host =
    let h = handler k host.dest.name host.dest.port in
    map_some (λ conf. record { handler = h; conf = conf }) (update_preferred_config ext h default)

-- `KnownHosts::make_handler` never panics: it gives the handler for the host's name and port, and a
-- configuration that prefers the algorithms of the lines for this host, then the others of the
-- default configuration.
pub known_hosts-ordered :
    (ext : External) (es : List Entry) (default : Preferred) (host : Host)
    → known_hosts ext (new es) default host
      ≡ some (record {
        handler = handler (new es) host.dest.name host.dest.port;
        conf = record {
          key = ordered ext host.dest.name host.dest.port es default.key;
          host_key_certificates = preferred_cert_alg;
        };
      })
unfolding known_hosts
known_hosts-ordered ext es default host =
    ap (map_some _) (update_preferred_config-ordered ext host.dest.name host.dest.port es default)
