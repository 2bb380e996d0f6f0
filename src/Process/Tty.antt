-- ===== src/Process/Tty.antt =====
-- `helpers::tty_conf` (src/process/mod.rs): whether a terminal is asked for, and which.
pub mod Wanted
use openrussh_client.Prelude.{
  ℕ, Text, codes, List, [], ◌∷◌, Bool, true, false, not, Option, none, some, if◌then◌else◌,
}
use openrussh_client.Config.{RequestTty, never, always, if_tty, for_shell}

-- The codes of `russh::Pty` that the code sends.
pub data PtyMode : Type 0 where
  vintr vquit verase vkill veof echo icanon isig icrnl ixon opost : PtyMode

-- What the code reads of `libc::termios`: five characters, and whether a flag is set.
pub record Termios : Type 0 where
  pub intr : ℕ
  pub quit : ℕ
  pub erase : ℕ
  pub kill : ℕ
  pub eof : ℕ
  pub has_echo : Bool
  pub has_icanon : Bool
  pub has_isig : Bool
  pub has_icrnl : Bool
  pub has_ixon : Bool
  pub has_opost : Bool

-- The program's environment: `TERM` where it is valid text, whether stdin is a terminal, its size
-- and its attributes, each `none` where the call fails.
pub record Terminal : Type 0 where
  pub term_var : Option Text
  pub is_terminal : Bool
  pub terminal_size : Option (ℕ × ℕ)
  pub tcgetattr : Option Termios

pub record TtyConf : Type 0 where
  pub term : Text
  pub col_width : ℕ
  pub row_height : ℕ
  pub pix_width : ℕ
  pub pix_height : ℕ
  pub terminal_modes : List (PtyMode × ℕ)

abbrev get_term : Option Text → Text
get_term (some term) = term
get_term none = codes "xterm"

abbrev default_size : ℕ × ℕ
default_size = (80, 24)

abbrev get_size : Option (ℕ × ℕ) → ℕ × ℕ
get_size none = default_size
get_size (some size) = size

-- `u32::from`
abbrev flag : Bool → ℕ
flag true = 1
flag false = 0

abbrev get_modes : Option Termios → List (PtyMode × ℕ)
get_modes none = []
get_modes (some t) =
    (vintr, t.intr)
    ∷ (vquit, t.quit)
    ∷ (verase, t.erase)
    ∷ (vkill, t.kill)
    ∷ (veof, t.eof)
    ∷ (echo, flag t.has_echo)
    ∷ (icanon, flag t.has_icanon)
    ∷ (isig, flag t.has_isig)
    ∷ (icrnl, flag t.has_icrnl)
    ∷ (ixon, flag t.has_ixon)
    ∷ (opost, flag t.has_opost)
    ∷ []

abbrev conf_of : Text → ℕ × ℕ → List (PtyMode × ℕ) → TtyConf
conf_of term (w, h) modes = record {
  term = term;
  col_width = w;
  row_height = h;
  pix_width = 0;
  pix_height = 0;
  terminal_modes = modes;
}

abbrev default_conf : Text → TtyConf
default_conf term = conf_of term default_size []

-- The configuration read from the terminal.
abbrev pub read_conf : Terminal → TtyConf
read_conf t = conf_of (get_term t.term_var) (get_size t.terminal_size) (get_modes t.tcgetattr)

unfoldable pub tty_conf : Terminal → RequestTty → Bool → Option TtyConf
tty_conf t never shell = none
tty_conf t for_shell shell =
    if not shell
    then none
    else if t.is_terminal
    then some (read_conf t)
    else some (default_conf (get_term t.term_var))
tty_conf t if_tty shell = if not t.is_terminal then none else some (read_conf t)
tty_conf t always shell =
    if t.is_terminal then some (read_conf t) else some (default_conf (get_term t.term_var))
