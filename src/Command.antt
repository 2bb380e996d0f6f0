-- ===== src/Command.antt =====
-- src/process/cmd.rs and the helpers of src/process/mod.rs: commands as text, built step by step.
pub mod Key
pub mod Builder
mod Tests
pub mod Expand
pub mod Call
pub mod Script
pub mod Grammar
pub mod Descriptor
pub mod Redirection
pub mod Assignment
pub mod Reading
use openrussh_client.Prelude.{
  ℕ, zero, suc, ◌+◌, Text, codes, List, [], ◌∷◌, ◌++◌, Bool, true, false, Option, none, some,
  if◌then◌else◌,
}
use openrussh_client.Escape.{SurroundBy, Escaper}
use openrussh_client.Escape.Arg.{Arg}
use openrussh_client.Escape.Number.{format_into}

-- `Escaper::new(buf, surr).escape(arg)`: the buffer after the argument.
unfoldable pub escape : {A : Type 0} → Arg A → SurroundBy → A → Text → Text
escape a r x buf = (a.write x (record { buf = buf; surr = r })).buf

-- `helpers::arg`
unfoldable pub arg : {A : Type 0} → Arg A → Text → A → Text
unfolding escape
arg a buf x =
    if a.need_double
    then escape a SurroundBy.double x (buf ++ b'"' ∷ []) ++ codes "\" "
    else escape a SurroundBy.single x (buf ++ b'\'' ∷ []) ++ codes "' "

-- The target of a redirection.
pub record RedirectTo (T : Type 0) : Type 0 where
  pub push_to : T → Text → Text

pub record RedirectPath (A : Type 0) : Type 0 where
  pub path : A

pub record RedirectDup : Type 0 where
  pub fd : ℕ

unfoldable pub push_path : {A : Type 0} → Arg A → A → Text → Text
unfolding escape
push_path a x buf =
    if a.need_double
    then escape a SurroundBy.double x (buf ++ b'"' ∷ []) ++ b'"' ∷ []
    else escape a SurroundBy.single x (buf ++ b'\'' ∷ []) ++ b'\'' ∷ []

instance abbrev pub path_target : {A : Type 0} ⦃a : Arg A⦄ → RedirectTo (RedirectPath A)
path_target ⦃a⦄ = record { push_to = λ p buf. push_path a p.path buf }

instance abbrev pub dup_target : RedirectTo RedirectDup
dup_target = record { push_to = λ d buf. (buf ++ b'&' ∷ []) ++ format_into d.fd }

pub data RedirectMode : Type 0 where
  read write append read_write : RedirectMode

pub data Redirect (T : Type 0) : Type 0 where
  stdin : T → Redirect T
  stdout stderr : T → Bool → Redirect T
  custom : ℕ → T → RedirectMode → Redirect T

abbrev pub mode_text : RedirectMode → Text
mode_text RedirectMode.read = codes "<"
mode_text RedirectMode.write = codes ">"
mode_text RedirectMode.append = codes ">>"
mode_text RedirectMode.read_write = codes "<>"

-- The `match` of `helpers::redir`.
unfoldable pub push_redirect : {T : Type 0} → RedirectTo T → Text → Redirect T → Text
push_redirect t buf (Redirect.stdin to) = t.push_to to (buf ++ codes "<")
push_redirect t buf (Redirect.stdout to true) = t.push_to to (buf ++ codes ">>")
push_redirect t buf (Redirect.stdout to false) = t.push_to to (buf ++ codes ">")
push_redirect t buf (Redirect.stderr to true) = t.push_to to (buf ++ codes "2>>")
push_redirect t buf (Redirect.stderr to false) = t.push_to to (buf ++ codes "2>")
push_redirect t buf (Redirect.custom fd to mode) =
    t.push_to to ((buf ++ format_into fd) ++ mode_text mode)

-- `helpers::redir`
unfoldable pub redir : {T : Type 0} → RedirectTo T → Text → Redirect T → Text
unfolding push_redirect push_path
redir t buf r = push_redirect t buf r ++ codes " "
