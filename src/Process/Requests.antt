-- ===== src/Process/Requests.antt =====
-- The requests of `exec` and `shell` in their order (src/process/cmd.rs, src/process/shell.rs).
use openrussh_client.Prelude.{
  Text, List, [], ◌∷◌, ◌≡◌, refl, ap, true, false, Option, none, some, Result, ok, err, M, pure,
  bind_pair, ◌>>=◌, ◌>>◌, fun_ext,
}
use openrussh_client.Config.{RequestTty}
use openrussh_client.Process.{Sessions, Child, exec, shell, pty_if}
use openrussh_client.Process.Tty.{Terminal, TtyConf, tty_conf}

-- A request on a channel.
pub data Request : Type 0 where
  pty : TtyConf → Request
  run : Text → Request
  start_shell : Request

abbrev pub pty_first : Option TtyConf → Request → List Request
pty_first none r = r ∷ []
pty_first (some tty) r = pty tty ∷ r ∷ []

module _ {S H C E : Type 0} (net : Sessions S H C E) where
  -- A reply is wanted for each request.
  abbrev pub send : C → Request → M S E (Unit {0})
  send c (pty tty) =
      net.request_pty c true tty.term tty.col_width tty.row_height tty.pix_width tty.pix_height
        tty.terminal_modes
  send c (run cmd) = net.exec_request c true cmd
  send c start_shell = net.request_shell c true

  -- The requests in order up to the first that fails.
  abbrev pub send_all : C → List Request → M S E (Unit {0})
  send_all c [] = pure tt
  send_all c (r ∷ []) = send c r
  send_all c (r ∷ q ∷ rs) = send c r >> send_all c (q ∷ rs)

  abbrev pub session : H → (C → List Request) → M S E (Child C)
  session h requests = do
    c ← net.channel_open_session h
    send_all c (requests c)
    pure (record { channel = c })

  bind_assoc :
      {A B D : Type 0} (f : A → M S E B) (g : B → M S E D) (p : Result E A × S)
      → bind_pair (λ a t. bind_pair g (f a t)) p ≡ bind_pair g (bind_pair f p)
  bind_assoc f g (ok a, t) = refl
  bind_assoc f g (err e, t) = refl

  child : C → Unit {0} → M S E (Child C)
  child c u = pure (record { channel = c })

  -- Asking for a terminal first, if there is to be one, and then sending a request is sending both.
  pty_if-send_all :
      (terminal : Terminal) (c : C) (o : Option TtyConf) (r : Request) (s : S)
      → bind_pair (λ u t. bind_pair (child c) (send c r t)) (pty_if net terminal c o s)
        ≡ bind_pair (child c) (send_all c (pty_first o r) s)
  pty_if-send_all terminal c none r s = refl
  pty_if-send_all terminal c (some tty) r s =
      bind_assoc (λ u. send c r) (child c) (send c (pty tty) s)

  -- `exec` and `shell` open a session's channel, and send on it the request for a terminal, if
  -- there is to be one, and then that for the command or the shell, each with a reply wanted; the
  -- first error ends them, and nothing is sent after it.
  pub exec-session :
      (terminal : Terminal) (h : H) (tty : RequestTty) (cmd : Text) (s : S)
      → (exec net terminal h cmd tty s
          ≡ session h (λ c. pty_first (tty_conf terminal tty false) (run cmd)) s)
        × (shell net terminal h tty s
            ≡ session h (λ c. pty_first (tty_conf terminal tty true) start_shell) s)
  unfolding exec shell child
  exec-session terminal h tty cmd s = (
    ap (λ f. bind_pair f (net.channel_open_session h s))
        (fun_ext (λ c.
          fun_ext (λ t. pty_if-send_all terminal c (tty_conf terminal tty false) (run cmd) t))),
    ap (λ f. bind_pair f (net.channel_open_session h s))
        (fun_ext (λ c.
          fun_ext (λ t. pty_if-send_all terminal c (tty_conf terminal tty true) start_shell t))),
  )
