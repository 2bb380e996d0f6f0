-- ===== src/Command/Expand.antt =====
-- src/process/escape/cmd.rs: `ExpandCommand` keeps the parts of its command and writes them only
-- when it is itself written as an argument.
pub mod Equal
use openrussh_client.Prelude.{Text, codes, List, ◌∷◌, [], ◌++◌, true}
use openrussh_client.Escape.{SurroundBy, Escaper}
use openrussh_client.Escape.Arg.{Arg}
use openrussh_client.Command.{arg, redir, RedirectTo, Redirect}
use openrussh_client.Command.Builder.{
  State, need_prog, need_term, completed, env_into, envs_into, args_into,
}

-- A part writes itself to the buffer of the outer command.
pub record Part (P : Type 0) : Type 0 where
  pub write_part : P → Text → Text

pub record Then (S T : Type 0) : Type 0 where
  pub first : S
  pub second : T

pub record EnvPart (V : Type 0) : Type 0 where
  pub key : Text
  pub value : V

pub record EnvsPart (V : Type 0) : Type 0 where
  pub pairs : List (Text × V)

pub record ArgsPart (A : Type 0) : Type 0 where
  pub items : List A

pub data And : Type 0 where
  and : And

pub data Or : Type 0 where
  or : Or

pub data Pipe : Type 0 where
  pipe : Pipe

pub data Term : Type 0 where
  term : Term

instance abbrev pub env_part : {V : Type 0} ⦃a : Arg V⦄ → Part (EnvPart V)
env_part ⦃a⦄ = record { write_part = λ p buf. env_into a buf p.key p.value }

instance abbrev pub envs_part : {V : Type 0} ⦃a : Arg V⦄ → Part (EnvsPart V)
envs_part ⦃a⦄ = record { write_part = λ p buf. envs_into a buf p.pairs }

instance abbrev pub args_part : {A : Type 0} ⦃a : Arg A⦄ → Part (ArgsPart A)
args_part ⦃a⦄ = record { write_part = λ p buf. args_into a buf p.items }

instance abbrev pub then_part : {S T : Type 0} ⦃s : Part S⦄ ⦃t : Part T⦄ → Part (Then S T)
then_part ⦃s⦄ ⦃t⦄ = record {
  write_part = λ p buf. t.write_part p.second (s.write_part p.first buf);
}

instance abbrev pub and_part : Part And
and_part = record { write_part = λ p buf. buf ++ codes "&& " }

instance abbrev pub or_part : Part Or
or_part = record { write_part = λ p buf. buf ++ codes "|| " }

instance abbrev pub pipe_part : Part Pipe
pipe_part = record { write_part = λ p buf. buf ++ codes "| " }

instance abbrev pub term_part : Part Term
term_part = record { write_part = λ p buf. buf ++ codes "; " }

instance abbrev pub redirect_part : {T : Type 0} ⦃t : RedirectTo T⦄ → Part (Redirect T)
redirect_part ⦃t⦄ = record { write_part = λ p buf. redir t buf p }

-- `impl<A: Arg> Part for A`
abbrev pub arg_part : {A : Type 0} → Arg A → Part A
arg_part a = record { write_part = λ x buf. arg a buf x }

-- The state is a phantom; `part` is `()` only after `new`.
pub record ExpandCommand (s : State) (P : Type 0) : Type 0 where
  pub part : P

abbrev pub new : ExpandCommand need_prog (Unit {0})
new = record { part = tt }

-- The first method puts its part in place of the `()`, and each further one puts its part behind
-- those that are there, each with the state that it leaves.
abbrev pub set_part :
    {P : Type 0} {s : State} (t : State) → ExpandCommand s (Unit {0}) → P → ExpandCommand t P
set_part t c p = record { part = p }

abbrev pub push_part :
    {A P : Type 0} {s : State} (t : State) → ExpandCommand s A → P → ExpandCommand t (Then A P)
push_part t c p = record { part = record { first = c.part; second = p } }

-- The bodies of the methods, on the command without parts and on one with parts.
module _ {V : Type 0} where
  unfoldable pub env_first :
      ExpandCommand need_prog (Unit {0}) → Text → V → ExpandCommand need_prog (EnvPart V)
  env_first c key x = set_part need_prog c (record { key = key; value = x })

  unfoldable pub envs_first :
      ExpandCommand need_prog (Unit {0}) → List (Text × V) → ExpandCommand need_prog (EnvsPart V)
  envs_first c xs = set_part need_prog c (record { pairs = xs })

  unfoldable pub prog_first : ExpandCommand need_prog (Unit {0}) → V → ExpandCommand need_term V
  prog_first c x = set_part need_term c x

unfoldable pub redirect_first :
    {T : Type 0} {s : State}
    → ExpandCommand s (Unit {0})
    → Redirect T
    → ExpandCommand s (Redirect T)
redirect_first {s} c r = set_part s c r

module _ {A V : Type 0} where
  unfoldable pub env :
      ExpandCommand need_prog A → Text → V → ExpandCommand need_prog (Then A (EnvPart V))
  env c key x = push_part need_prog c (record { key = key; value = x })

  unfoldable pub envs :
      ExpandCommand need_prog A → List (Text × V) → ExpandCommand need_prog (Then A (EnvsPart V))
  envs c xs = push_part need_prog c (record { pairs = xs })

  unfoldable pub prog : ExpandCommand need_prog A → V → ExpandCommand need_term (Then A V)
  prog c x = push_part need_term c x

  unfoldable pub add_arg : ExpandCommand need_term A → V → ExpandCommand need_term (Then A V)
  add_arg c x = push_part need_term c x

  unfoldable pub add_args :
      ExpandCommand need_term A → List V → ExpandCommand need_term (Then A (ArgsPart V))
  add_args c xs = push_part need_term c (record { items = xs })

module _ {A : Type 0} where
  unfoldable pub redirect :
      {T : Type 0} {s : State}
      → ExpandCommand s A
      → Redirect T
      → ExpandCommand s (Then A (Redirect T))
  redirect {s} c r = push_part s c r

  unfoldable pub and_then : ExpandCommand need_term A → ExpandCommand need_prog (Then A And)
  and_then c = push_part need_prog c and

  unfoldable pub or_else : ExpandCommand need_term A → ExpandCommand need_prog (Then A Or)
  or_else c = push_part need_prog c or

  unfoldable pub pipe_to : ExpandCommand need_term A → ExpandCommand need_prog (Then A Pipe)
  pipe_to c = push_part need_prog c pipe

  unfoldable pub complete : ExpandCommand need_term A → ExpandCommand completed (Then A Term)
  complete c = push_part completed c term

-- The buffer is written as it is: nothing inside `$(…)` is escaped again.
unfoldable pub write_expansion :
    {A : Type 0} → Part A → ExpandCommand completed A → Escaper → Escaper
write_expansion p c e = record e { buf = p.write_part c.part (e.buf ++ codes "$(") ++ b')' ∷ [] }

instance abbrev pub expand_arg : {A : Type 0} ⦃p : Part A⦄ → Arg (ExpandCommand completed A)
expand_arg ⦃p⦄ = record { need_double = true; write = λ c e. write_expansion p c e }
