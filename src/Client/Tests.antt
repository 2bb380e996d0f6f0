-- ===== src/Client/Tests.antt =====
-- A command on a host behind another, whose keys the known hosts have.
use openrussh_client.Prelude.{ℕ, suc, Text, codes, List, ◌∷◌, [], ◌≡◌, refl, some, false, ok}
use openrussh_client.Config.{Host, for_shell, iter, next, len}
use openrussh_client.Config.Route.{walk}
use openrussh_client.Config.Parsers.{parsed, parse_host}
use openrussh_client.Config.Parsers.Way.{Way, Resolve}
use openrussh_client.Auth.{from_config}
use openrussh_client.Auth.Loop.{try_each}
use openrussh_client.KnownHosts.Alg.{from_alg}
use openrussh_client.KnownHosts.Pattern.{
  host_matched_known_hosts, rsplit_port, port_text, normalize_host,
}
use openrussh_client.KnownHosts.Entry.{contains_entry, sort_by_lookup}
use openrussh_client.KnownHosts.Handler.{new, handler, accepts, host_matched}
use openrussh_client.Connect.{Connection, connect_impl}
use openrussh_client.Connect.Trusted.{IsAccepted, Each}
use openrussh_client.Connect.Tests.{
  checked_network, make_known, exact, lines, server_key, checked_network-IsChecked,
}
use openrussh_client.Connect.Queried.Tests.{env, query, target, chain, t_is_parsed}
use openrussh_client.Shell.{word, op}
use openrussh_client.Shell.Run.{tokens}
use openrussh_client.Command.Builder.{into_inner}
use openrussh_client.Command.Builder as Builder
use openrussh_client.Command.Script
use openrussh_client.Process.{Sessions, connection_exec}
use openrussh_client.Process.Requests.{run, pty_first, session}
use openrussh_client.Process.Tests.{pipe, ls_script}
use openrussh_client.Process.Tty.{tty_conf}
use openrussh_client.Client.{connection_exec-known}

-- A session that counts its requests.
abbrev counting : Sessions ℕ Text Text Text
counting = record {
  channel_open_session = λ h n. (ok h, suc n);
  request_pty = λ c reply term w h pw ph modes n. (ok tt, suc n);
  exec_request = λ c reply cmd n. (ok tt, suc n);
  request_shell = λ c reply n. (ok tt, suc n);
}

abbrev at_target : Connection Text
at_target = record { handle = codes "t"; tty = for_shell }

connected : connect_impl checked_network make_known chain 0 ≡ (ok at_target, 5)
unfolding connect_impl walk iter from_config try_each next len accepts handler new from_alg
    contains_entry sort_by_lookup host_matched host_matched_known_hosts rsplit_port port_text
    normalize_host
connected = refl

connection_exec-known_example :
    (names : List Text) × (hosts : List Host) × (front : List Text) × Way env query
      (query target.host).proxy_jump
      names
    × Resolve env query names hosts
    × (parse_host env (query target.host) target ≡ parsed chain.target)
    × Each checked_network make_known exact lines server_key hosts front
    × IsAccepted checked_network make_known exact lines server_key chain.target (codes "t")
    × (connection_exec counting pipe at_target (into_inner (Script.run ls_script Builder.new)) 5
        ≡ session counting
            (codes "t")
            (λ d.
              pty_first
                (tty_conf pipe for_shell false)
                (run (into_inner (Script.run ls_script Builder.new))))
            5)
    × (tokens (into_inner (Script.run ls_script Builder.new))
        ≡ some (word (codes "ls") ∷ op (codes ";") ∷ []))
connection_exec-known_example =
    connection_exec-known checked_network make_known exact lines server_key
      checked_network-IsChecked env query counting pipe 1 target chain t_is_parsed 0 at_target 5
      connected ls_script ((tt, refl), tt)
