-- ===== src/Process/Tests.antt =====
-- A session that writes its requests down, and the theorems of src/process on it.
use openrussh_client.Prelude.{
  Text, codes, List, [], ◌∷◌, ◌++◌, ◌≡◌, refl, true, false, none, some, ok,
}
use openrussh_client.Config.{always, for_shell}
use openrussh_client.Escape.Arg.{Str, str_arg}
use openrussh_client.Escape.Reading.{str_literal}
use openrussh_client.Command.Builder.{need_prog, completed}
use openrussh_client.Command.Call.{call_prog, call_complete}
use openrussh_client.Command.Script.{Script, done, after}
use openrussh_client.Process.{Sessions, exec, shell}
use openrussh_client.Process.Tty.{
  vintr, vquit, verase, vkill, veof, echo, icanon, isig, icrnl, ixon, opost, Terminal, tty_conf,
}
use openrussh_client.Process.Tty.Wanted.{tty_conf-wants}
use openrussh_client.Process.Requests.{run, start_shell, pty_first, session, exec-session}

abbrev Log : Type 0
Log = List Text

-- The server refuses no request.
abbrev log : Sessions Log (Unit {0}) (Unit {0}) Text
log = record {
  channel_open_session = λ h s. (ok tt, s ++ codes "open" ∷ []);
  request_pty = λ c reply term w h pw ph modes s. (ok tt, s ++ term ∷ []);
  exec_request = λ c reply cmd s. (ok tt, s ++ cmd ∷ []);
  request_shell = λ c reply s. (ok tt, s ++ codes "shell" ∷ []);
}

-- A pipe, with `TERM` unset.
abbrev pub pipe : Terminal
pipe = record { term_var = none; is_terminal = false; terminal_size = none; tcgetattr = none }

ls_with_pty :
    (exec log pipe tt (codes "ls") always []).1 ≡ codes "open" ∷ codes "xterm" ∷ codes "ls" ∷ []
unfolding exec tty_conf
ls_with_pty = refl

ls_alone : (exec log pipe tt (codes "ls") for_shell []).1 ≡ codes "open" ∷ codes "ls" ∷ []
unfolding exec tty_conf
ls_alone = refl

shell_with_pty :
    (shell log pipe tt for_shell []).1 ≡ codes "open" ∷ codes "xterm" ∷ codes "shell" ∷ []
unfolding shell tty_conf
shell_with_pty = refl

-- A terminal of 100 by 30, whose attributes can be read.
abbrev screen : Terminal
screen = record {
  term_var = some (codes "vt100");
  is_terminal = true;
  terminal_size = some (100, 30);
  tcgetattr = some (record {
    intr = 3;
    quit = 28;
    erase = 127;
    kill = 21;
    eof = 4;
    has_echo = true;
    has_icanon = true;
    has_isig = true;
    has_icrnl = true;
    has_ixon = false;
    has_opost = true;
  });
}

tty_conf-wants_example :
    tty_conf screen always false
    ≡ some (record {
      term = codes "vt100";
      col_width = 100;
      row_height = 30;
      pix_width = 0;
      pix_height = 0;
      terminal_modes =
          (vintr, 3)
          ∷ (vquit, 28)
          ∷ (verase, 127)
          ∷ (vkill, 21)
          ∷ (veof, 4)
          ∷ (echo, 1)
          ∷ (icanon, 1)
          ∷ (isig, 1)
          ∷ (icrnl, 1)
          ∷ (ixon, 0)
          ∷ (opost, 1)
          ∷ [];
    })
tty_conf-wants_example = tty_conf-wants screen always false

exec-session_example :
    (exec log pipe tt (codes "ls") always []
      ≡ session log tt (λ c. pty_first (tty_conf pipe always false) (run (codes "ls"))) [])
    × (shell log pipe tt always []
        ≡ session log tt (λ c. pty_first (tty_conf pipe always true) start_shell) [])
exec-session_example = exec-session log pipe tt always (codes "ls") []

abbrev pub ls_script : Script need_prog completed
ls_script =
    after
      (after done (
        call_prog (record {
          Carrier = Str;
          arg_of = str_arg;
          literal = str_literal;
          item = record { text = codes "ls" };
        })))
      (call_complete false)
