-- ===== src/Client.antt =====
-- The client as a whole: a query, a connection checked against known hosts, and a command over it.
mod Tests
use openrussh_client.Prelude.{
  ℕ, Text, List, [], ◌∷◌, ◌++◌, ◌≡◌, refl, sym, ap, ◌∙◌, Option, none, some, some_inj, false, ok, M,
}
use openrussh_client.Config.{Host, Chain}
use openrussh_client.Config.Route.{route}
use openrussh_client.Config.Target.{Target}
use openrussh_client.Config.Paths.{Env}
use openrussh_client.Config.Parsers.{HostParams, parsed, parse_host, parse_config}
use openrussh_client.Config.Parsers.Way.{Way, Resolve, parse_config-Follows}
use openrussh_client.KnownHosts.Pattern.{External}
use openrussh_client.KnownHosts.Handler.{Entry, Handler, ServerKey}
use openrussh_client.KnownHosts.Preferred.{Preferred}
use openrussh_client.Connect.{Context, Network, Connection, connect_impl}
use openrussh_client.Connect.Linked.{connect_impl-Arrived}
use openrussh_client.Connect.Trusted.{IsChecked, IsAccepted, Each, last_from, connect_impl-Each}
use openrussh_client.Shell.Run.{tokens}
use openrussh_client.Command.Builder.{need_prog, completed, new, into_inner}
use openrussh_client.Command.Script.{Script, run, script_tokens, ScriptValid}
use openrussh_client.Process.{Sessions, connection_exec}
use openrussh_client.Process.Requests.{pty_first, session}
use openrussh_client.Process.Requests.{run as run_request}
use openrussh_client.Process.Sent.{connection_exec-tokens}
use openrussh_client.Process.Tty.{Terminal, tty_conf}

module _ {S H C A E R F : Type 0} (net : Network S Handler Preferred H C A E R)
    (make_handler : Host → M S F (Context Handler Preferred)) (ext : External) (es : List Entry)
    (server_key : H → ServerKey) where
  -- The connections to the hosts in front of the last, and that to the last.
  abbrev Ends : List Host → Host → List H → Type 0
  Ends hosts target hs =
      (front : List H) × (h : H) × (hs ≡ front ++ h ∷ [])
      × Each net make_handler ext es server_key hosts front
      × IsAccepted net make_handler ext es server_key target h

  Each-Ends :
      (hosts : List Host) (target : Host) (hs : List H)
      → Each net make_handler ext es server_key (hosts ++ target ∷ []) hs
      → Ends hosts target hs
  Each-Ends [] target [] e = absurd e
  Each-Ends [] target (h ∷ []) (a, e) = ([], h, refl, tt, a)
  Each-Ends [] target (h ∷ g ∷ hs) (a, e) = absurd e
  Each-Ends (x ∷ xs) target [] e = absurd e
  Each-Ends (x ∷ xs) target (h ∷ hs) (a, e) =
      let (front, g, q, each, last) = Each-Ends xs target hs e in
      (h ∷ front, g, ap (λ l. h ∷ l) q, (a, each), last)

  last_from-end :
      (at : Option H) (front : List H) (h : H)
      → last_from net make_handler ext es server_key at (front ++ h ∷ []) ≡ some h
  last_from-end at [] h = refl
  last_from-end at (g ∷ front) h = last_from-end (some g) front h

  module _ {default : Preferred}
      (checked : IsChecked net make_handler ext es server_key default) where
    connect_impl-ends :
        (hosts : List Host) (c : Chain)
        → route c ≡ hosts ++ c.target ∷ []
        → (s : S) (conn : Connection H) (t : S) → connect_impl net make_handler c s ≡ (ok conn, t)
        → (front : List H) × Each net make_handler ext es server_key hosts front
          × IsAccepted net make_handler ext es server_key c.target conn.handle
    connect_impl-ends hosts c way s conn t connected =
        let (hs, each, last) =
          connect_impl-Each net make_handler ext es server_key checked c s conn t connected in
        let (front, h, ends, before, accepted) = Each-Ends hosts c.target hs (rw way at each) in
        let handle_is : h ≡ conn.handle = some_inj (
          sym (last_from-end none front h)
          ∙ ap (last_from net make_handler ext es server_key none) (sym ends)
          ∙ last) in
        (front, before, rw handle_is at accepted)

  module _ {default : Preferred} (checked : IsChecked net make_handler ext es server_key default)
      (env : Env) (query : Text → HostParams) {D X : Type 0} (sessions : Sessions S H D X)
      (terminal : Terminal) where
    -- A command that a program has built and gives to a connection to the chain of a query is run,
    -- if at all, by the server of the target, as it was asked for, behind one connection for each
    -- host of the way that the `ProxyJump`s ask for. The known hosts accept the key of each of
    -- these servers for its host's name and port, and each has accepted a request for its host's
    -- user. One session is opened on the connection to the target, and behind the request for a
    -- terminal, if the target's setting wants one, the only request is to run a text that the shell
    -- cuts into exactly the tokens that the calls of the builder ask for. It holds where the
    -- handlers are those of `KnownHosts::make_handler`, and russh gives a handle only if the
    -- handler accepts the server's key.
    pub connection_exec-known :
        (fuel : ℕ) (target : Target) (c : Chain)
        → parse_config env query fuel target ≡ some (parsed c)
        → (s : S) (conn : Connection H) (t : S) → connect_impl net make_handler c s ≡ (ok conn, t)
        → (p : Script need_prog completed) → ScriptValid p
        → (names : List Text) × (hosts : List Host) × (front : List H) × Way env query
            (query target.host).proxy_jump
            names
          × Resolve env query names hosts
          × (parse_host env (query target.host) target ≡ parsed c.target)
          × Each net make_handler ext es server_key hosts front
          × IsAccepted net make_handler ext es server_key c.target conn.handle
          × (connection_exec sessions terminal conn (into_inner (run p new)) t
              ≡ session sessions conn.handle
                  (λ d.
                    pty_first
                      (tty_conf terminal c.target.tty false)
                      (run_request (into_inner (run p new))))
                  t)
          × (tokens (into_inner (run p new)) ≡ some (script_tokens p))
    connection_exec-known fuel target c e s conn t connected p v =
        let (names, hosts, way, resolve, asked, q) =
          parse_config-Follows env query fuel target c e in
        let (front, before, accepted) = connect_impl-ends checked hosts c q s conn t connected in
        let tty_is : conn.tty ≡ c.target.tty =
          (rw connected at (connect_impl-Arrived net make_handler c s)).1 in
        let (sent, read) = connection_exec-tokens sessions terminal conn p v t in
        (
          names,
          hosts,
          front,
          way,
          resolve,
          asked,
          before,
          accepted,
          sent
              ∙ ap
                  (λ tty.
                    session sessions conn.handle
                      (λ d.
                        pty_first (tty_conf terminal tty false)
                          (run_request (into_inner (run p new))))
                      t)
                  tty_is,
          read,
        )
