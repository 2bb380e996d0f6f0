-- ===== src/Command/Builder.antt =====
-- `Command` (src/process/cmd.rs): its type parameter says what can be appended next.
use openrussh_client.Prelude.{
  Text, codes, List, [], ◌∷◌, ◌++◌, Bool, Option, none, some, if◌then◌else◌,
}
use openrussh_client.Escape.{SurroundBy}
use openrussh_client.Escape.Arg.{Arg}
use openrussh_client.Command.{escape, arg, redir, RedirectTo, Redirect}
use openrussh_client.Command.Key.{valid_key}

pub data State : Type 0 where
  need_prog need_term completed : State

pub record Command (T : State) : Type 0 where
  pub buf : Text

unfoldable pub env_at : {V : Type 0} → Arg V → Text → V → Option Text → Text
unfolding escape
env_at a buf x none = buf
env_at a buf x (some key) =
    if a.need_double
    then escape a SurroundBy.double x ((buf ++ key) ++ codes "=\"") ++ codes "\" "
    else escape a SurroundBy.single x ((buf ++ key) ++ codes "='") ++ codes "' "

-- `helpers::env`
unfoldable pub env_into : {V : Type 0} → Arg V → Text → Text → V → Text
unfolding env_at valid_key
env_into a buf key x = env_at a buf x (valid_key key)

unfoldable pub envs_into : {V : Type 0} → Arg V → Text → List (Text × V) → Text
unfolding env_into
envs_into a buf [] = buf
envs_into a buf ((key, x) ∷ envs) = envs_into a (env_into a buf key x) envs

unfoldable pub args_into : {A : Type 0} → Arg A → Text → List A → Text
unfolding arg
args_into a buf [] = buf
args_into a buf (x ∷ xs) = args_into a (arg a buf x) xs

abbrev pub new : Command State.need_prog
new = record { buf = [] }

module _ {A : Type 0} ⦃a : Arg A⦄ where
  unfoldable pub env : Command State.need_prog → Text → A → Command State.need_prog
  unfolding env_into
  env c key x = record { buf = env_into a c.buf key x }

  unfoldable pub envs : Command State.need_prog → List (Text × A) → Command State.need_prog
  unfolding envs_into
  envs c xs = record { buf = envs_into a c.buf xs }

  unfoldable pub prog : Command State.need_prog → A → Command State.need_term
  unfolding arg
  prog c x = record { buf = arg a c.buf x }

  unfoldable pub add_arg : Command State.need_term → A → Command State.need_term
  unfolding arg
  add_arg c x = record { buf = arg a c.buf x }

  unfoldable pub add_args : Command State.need_term → List A → Command State.need_term
  unfolding args_into
  add_args c xs = record { buf = args_into a c.buf xs }

-- `redirect` is a method of both states before completion.
unfoldable pub redirect :
    {T : Type 0} ⦃t : RedirectTo T⦄ {s : State} → Command s → Redirect T → Command s
unfolding redir
redirect ⦃t⦄ c r = record { buf = redir t c.buf r }

unfoldable pub and_then : Command State.need_term → Command State.need_prog
and_then c = record { buf = c.buf ++ codes "&& " }

unfoldable pub or_else : Command State.need_term → Command State.need_prog
or_else c = record { buf = c.buf ++ codes "|| " }

unfoldable pub pipe : Command State.need_term → Command State.need_prog
pipe c = record { buf = c.buf ++ codes "| " }

unfoldable pub complete : Command State.need_term → Bool → Command State.completed
complete c bg = record { buf = if bg then c.buf ++ codes "& " else c.buf ++ codes "; " }

unfoldable pub chain : Command State.completed → Command State.need_prog
chain c = record { buf = c.buf }

unfoldable pub into_inner : Command State.completed → Text
into_inner c = c.buf

-- `Command::new_unchecked`
abbrev pub new_unchecked : Text → Command State.completed
new_unchecked cmd = record { buf = cmd }

-- `take_inner` leaves an empty command behind.
unfoldable pub take_inner : Command State.completed → Text × Command State.completed
take_inner c = (c.buf, record { buf = [] })

-- `From<Command<Completed>> for Bytes` (src/process/shell.rs): one newline at the end.
unfoldable pub stdin_bytes : Command State.completed → Text
unfolding into_inner
stdin_bytes c = into_inner c ++ b'\n' ∷ []
