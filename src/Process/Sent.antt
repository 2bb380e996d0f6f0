-- ===== src/Process/Sent.antt =====
-- What a remote shell is given to run: src/process/cmd.rs from the builder to the request.
use openrussh_client.Prelude.{◌≡◌, false, some}
use openrussh_client.Shell.Run.{tokens}
use openrussh_client.Connect.{Connection}
use openrussh_client.Command.Builder.{need_prog, completed, new, into_inner}
use openrussh_client.Command.Script.{Script, run, script_tokens, ScriptValid, tokens-run}
use openrussh_client.Process.{Sessions, connection_exec}
use openrussh_client.Process.Requests.{pty_first, session, exec-session}
use openrussh_client.Process.Requests.{run as run_request}
use openrussh_client.Process.Tty.{Terminal, tty_conf}

-- Executing a command that a program has built, over a connection with its setting for a terminal:
-- one session is opened, and after the request for a terminal, if there is to be one, the only
-- request is to run a text that the shell cuts into exactly the tokens that the calls of the
-- builder ask for.
pub connection_exec-tokens :
    {S H C E : Type 0} (net : Sessions S H C E) (terminal : Terminal) (conn : Connection H)
    (p : Script need_prog completed)
    → ScriptValid p
    → (s : S)
    → (connection_exec net terminal conn (into_inner (run p new)) s
        ≡ session net conn.handle
            (λ c.
              pty_first (tty_conf terminal conn.tty false) (run_request (into_inner (run p new))))
            s)
      × (tokens (into_inner (run p new)) ≡ some (script_tokens p))
unfolding connection_exec
connection_exec-tokens net terminal conn p v s =
    ((exec-session net terminal conn.handle conn.tty (into_inner (run p new)) s).0, tokens-run p v)
