-- ===== src/Process/Tty/Wanted.antt =====
-- Which terminal `helpers::tty_conf` asks for (src/process/mod.rs).
use openrussh_client.Prelude.{
  ℕ, Text, codes, List, [], ◌∷◌, ◌≡◌, refl, ap, inl, inr, Bool, true, false, Option, none, some,
  if◌then◌else◌, Bool-cases,
}
use openrussh_client.Config.{RequestTty, never, always, if_tty, for_shell}
use openrussh_client.Process.Tty.{
  PtyMode, vintr, vquit, verase, vkill, veof, echo, icanon, isig, icrnl, ixon, opost, Termios,
  Terminal, TtyConf, get_term, get_size, flag, get_modes, conf_of, tty_conf,
}

-- Whether the setting asks for a terminal, for a shell or a command, where stdin is a terminal or not.
abbrev pub wants : RequestTty → Bool → Bool → Bool
wants never shell is_terminal = false
wants always shell is_terminal = true
wants if_tty shell is_terminal = is_terminal
wants for_shell shell is_terminal = shell

-- What stdin gives, where it is a terminal.
abbrev pub if_terminal : {A : Type 0} → Bool → Option A → Option A
if_terminal true o = o
if_terminal false o = none

abbrev pub or_else : {A : Type 0} → A → Option A → A
or_else a none = a
or_else a (some b) = b

abbrev pub width_of : Option (ℕ × ℕ) → Option ℕ
width_of none = none
width_of (some (w, h)) = some w

abbrev pub height_of : Option (ℕ × ℕ) → Option ℕ
height_of none = none
height_of (some (w, h)) = some h

-- The value of a mode: the code of a character, or whether a flag is set.
abbrev pub value_of : Termios → PtyMode → ℕ
value_of t vintr = t.intr
value_of t vquit = t.quit
value_of t verase = t.erase
value_of t vkill = t.kill
value_of t veof = t.eof
value_of t echo = if t.has_echo then 1 else 0
value_of t icanon = if t.has_icanon then 1 else 0
value_of t isig = if t.has_isig then 1 else 0
value_of t icrnl = if t.has_icrnl then 1 else 0
value_of t ixon = if t.has_ixon then 1 else 0
value_of t opost = if t.has_opost then 1 else 0

abbrev pub valued : Termios → List PtyMode → List (PtyMode × ℕ)
valued t [] = []
valued t (m ∷ ms) = (m, value_of t m) ∷ valued t ms

abbrev pub modes_of : Option Termios → List (PtyMode × ℕ)
modes_of none = []
modes_of (some t) =
    valued t
      (vintr ∷ vquit ∷ verase ∷ vkill ∷ veof ∷ echo ∷ icanon ∷ isig ∷ icrnl ∷ ixon ∷ opost ∷ [])

-- The same configuration, from what the environment gives.
wanted : Option Text → Option (ℕ × ℕ) → Option Termios → TtyConf
wanted term size attributes = record {
  term = or_else (codes "xterm") term;
  col_width = or_else 80 (width_of size);
  row_height = or_else 24 (height_of size);
  pix_width = 0;
  pix_height = 0;
  terminal_modes = modes_of attributes;
}

get_term-or_else : (term : Option Text) → get_term term ≡ or_else (codes "xterm") term
get_term-or_else none = refl
get_term-or_else (some term) = refl

get_size-or_else :
    (size : Option (ℕ × ℕ))
    → get_size size ≡ (or_else 80 (width_of size), or_else 24 (height_of size))
get_size-or_else none = refl
get_size-or_else (some (w, h)) = refl

flag-if : (b : Bool) → flag b ≡ (if b then 1 else 0)
flag-if true = refl
flag-if false = refl

get_modes-modes_of : (attributes : Option Termios) → get_modes attributes ≡ modes_of attributes
get_modes-modes_of none = refl
get_modes-modes_of (some t) =
    rw
      (
        flag-if t.has_echo,
        flag-if t.has_icanon,
        flag-if t.has_isig,
        flag-if t.has_icrnl,
        flag-if t.has_ixon,
        flag-if t.has_opost,
      )
      refl

conf_of-wanted :
    (term : Option Text) (size : Option (ℕ × ℕ)) (attributes : Option Termios)
    → conf_of (get_term term) (get_size size) (get_modes attributes) ≡ wanted term size attributes
unfolding wanted
conf_of-wanted term size attributes =
    rw (get_term-or_else term, get_size-or_else size, get_modes-modes_of attributes) refl

-- A terminal is asked for exactly if the setting wants one. Then it has the name of `TERM`, or else
-- `xterm`; the width and the height of stdin where that is a terminal whose size can be read, else
-- 80 by 24; no size in pixels; and, where stdin is a terminal whose attributes can be read, eleven
-- modes in a fixed order: the codes of the characters INTR, QUIT, ERASE, KILL and EOF, and 1 or 0
-- for the flags ECHO, ICANON, ISIG, ICRNL, IXON and OPOST, else none.
pub tty_conf-wants :
    (t : Terminal) (tty : RequestTty) (shell : Bool)
    → tty_conf t tty shell ≡ (
        if wants tty shell t.is_terminal
        then some (record {
          term = or_else (codes "xterm") t.term_var;
          col_width = or_else 80 (width_of (if_terminal t.is_terminal t.terminal_size));
          row_height = or_else 24 (height_of (if_terminal t.is_terminal t.terminal_size));
          pix_width = 0;
          pix_height = 0;
          terminal_modes = modes_of (if_terminal t.is_terminal t.tcgetattr);
        })
        else none)
unfolding tty_conf wanted
tty_conf-wants t never shell = refl
tty_conf-wants t always shell = elim (Bool-cases t.is_terminal) [
  | inl e ↦ rw e (ap some (conf_of-wanted t.term_var t.terminal_size t.tcgetattr))
  | inr e ↦ rw e (ap some (conf_of-wanted t.term_var none none))
]
tty_conf-wants t if_tty shell = elim (Bool-cases t.is_terminal) [
  | inl e ↦ rw e (ap some (conf_of-wanted t.term_var t.terminal_size t.tcgetattr))
  | inr e ↦ rw e refl
]
tty_conf-wants t for_shell true = elim (Bool-cases t.is_terminal) [
  | inl e ↦ rw e (ap some (conf_of-wanted t.term_var t.terminal_size t.tcgetattr))
  | inr e ↦ rw e (ap some (conf_of-wanted t.term_var none none))
]
tty_conf-wants t for_shell false = refl
