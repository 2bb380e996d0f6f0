-- ===== src/Process.antt =====
-- A remote process or shell: the requests on a session's channel (src/process/cmd.rs,
-- src/process/shell.rs, src/process/mod.rs).
pub mod Tty
pub mod Requests
pub mod Sent
pub mod Tests
use openrussh_client.Prelude.{
  ℕ, Text, codes, List, [], ◌∷◌, ◌++◌, Bool, true, false, Option, none, some, Result, ok, err, M,
  pure, fail, bind_pair, ◌>>=◌, ◌>>◌,
}
use openrussh_client.Config.{RequestTty}
use openrussh_client.Connect.{Connection}
use openrussh_client.Command.Builder.{Command, completed}
use openrussh_client.Process.Tty.{Terminal, TtyConf, PtyMode, tty_conf}

-- The calls of a russh handle `H` and of its channels `C`, with the errors `E`.
pub record Sessions (S H C E : Type 0) : Type 0 where
  pub channel_open_session : H → M S E C
  pub request_pty : C → Bool → Text → ℕ → ℕ → ℕ → ℕ → List (PtyMode × ℕ) → M S E (Unit {0})
  pub exec_request : C → Bool → Text → M S E (Unit {0})
  pub request_shell : C → Bool → M S E (Unit {0})

-- `Child::new`: the process is what reads and writes the channel.
pub record Child (C : Type 0) : Type 0 where
  pub channel : C

module _ {S H C E : Type 0} (net : Sessions S H C E) (terminal : Terminal) where
  -- `if let Some(tty) = tty_conf(..)`
  abbrev pub pty_if : C → Option TtyConf → M S E (Unit {0})
  pty_if channel none = pure tt
  pty_if channel (some tty) =
      net.request_pty channel true tty.term tty.col_width tty.row_height tty.pix_width
        tty.pix_height tty.terminal_modes

  unfoldable pub exec : H → Text → RequestTty → M S E (Child C)
  unfolding tty_conf
  exec handle cmd tty = do
    channel ← net.channel_open_session handle
    pty_if channel (tty_conf terminal tty false)
    net.exec_request channel true cmd
    pure (record { channel = channel })

  -- `Command::spawn`
  unfoldable pub spawn : Command completed → H → RequestTty → M S E (Child C)
  unfolding exec
  spawn cmd handle tty = exec handle cmd.buf tty

  unfoldable pub shell : H → RequestTty → M S E (Child C)
  unfolding tty_conf
  shell handle tty = do
    channel ← net.channel_open_session handle
    pty_if channel (tty_conf terminal tty true)
    net.request_shell channel true
    pure (record { channel = channel })

  -- `Connection::exec`, of a command's text.
  unfoldable pub connection_exec : Connection H → Text → M S E (Child C)
  unfolding exec
  connection_exec conn cmd = exec conn.handle cmd conn.tty

  -- `Connection::shell`
  unfoldable pub connection_shell : Connection H → M S E (Child C)
  unfolding shell
  connection_shell conn = shell conn.handle conn.tty

-- `Bytes::from(Exit)`
abbrev pub exit_bytes : Text
exit_bytes = codes "exit\n"
