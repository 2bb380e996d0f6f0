-- ===== src/Command/Expand/Equal.antt =====
-- `ExpandCommand` and `Command` write the same command, one late and one at each call.
use openrussh_client.Prelude.{Text, codes, [], ◌∷◌, ◌++◌, ◌≡◌, refl, ap, ◌∙◌, false}
use openrussh_client.Escape.{Escaper}
use openrussh_client.Command.Builder.{State, need_prog, need_term, into_inner}
use openrussh_client.Command.Call.{
  Call, apply, call_env, call_envs, call_prog, call_arg, call_args, redirect_prog, redirect_term,
  call_and, call_or, call_pipe, call_complete, call_chain,
}
use openrussh_client.Command.Script.{Script, run, done, after}
use openrussh_client.Command.Expand.{
  Part, Then, ExpandCommand, new, env_part, envs_part, args_part, then_part, and_part, or_part,
  pipe_part, term_part, redirect_part, arg_part, env_first, envs_first, prog_first, redirect_first,
  env, envs, prog, add_arg, add_args, redirect, and_then, or_else, pipe_to, complete,
  write_expansion,
}

-- An expansion with parts, of any type.
pub record Parts (s : State) : Type 1 where
  pub Kind : Type 0
  pub part_of : Part Kind
  pub command : ExpandCommand s Kind

pub data Built : State → Type 1 where
  empty : Built need_prog
  parts : {s : State} → Parts s → Built s

-- The calls inside an expansion: it has no `chain`, and `complete` comes last.
abbrev pub IsInner : {s t : State} → Call s t → Type 0
IsInner (call_env key x) = Unit {0}
IsInner (call_envs x) = Unit {0}
IsInner (call_prog x) = Unit {0}
IsInner (call_arg x) = Unit {0}
IsInner (call_args x) = Unit {0}
IsInner (redirect_prog r) = Unit {0}
IsInner (redirect_term r) = Unit {0}
IsInner call_and = Unit {0}
IsInner call_or = Unit {0}
IsInner call_pipe = Unit {0}
IsInner (call_complete bg) = ⊥
IsInner call_chain = ⊥

abbrev pub AllInner : {s t : State} → Script s t → Type 0
AllInner done = Unit {0}
AllInner (after p c) = AllInner p × IsInner c

-- The part of a call on a command without parts.
first_call : {t : State} → Call need_prog t → Built t
unfolding env_first envs_first prog_first redirect_first
first_call (call_env key x) =
    parts
      (record { Kind = _; part_of = env_part ⦃a = x.arg_of⦄; command = env_first new key x.item })
first_call (call_envs x) =
    parts
      (record { Kind = _; part_of = envs_part ⦃a = x.arg_of⦄; command = envs_first new x.pairs })
first_call (call_prog x) =
    parts (record { Kind = _; part_of = arg_part x.arg_of; command = prog_first new x.item })
first_call (redirect_prog r) = parts (record {
  Kind = _;
  part_of = redirect_part ⦃t = r.target⦄;
  command = redirect_first new r.redirection;
})

next : {s t : State} {P : Type 0} (b : Parts s) → Part P → ExpandCommand t (Then b.Kind P) → Built t
next b q c = parts (record { Kind = _; part_of = then_part ⦃s = b.part_of⦄ ⦃t = q⦄; command = c })

next_call : {s t : State} (c : Call s t) → IsInner c → Parts s → Built t
unfolding next env envs prog add_arg add_args redirect and_then or_else pipe_to
next_call (call_env key x) i b = next b (env_part ⦃a = x.arg_of⦄) (env b.command key x.item)
next_call (call_envs x) i b = next b (envs_part ⦃a = x.arg_of⦄) (envs b.command x.pairs)
next_call (call_prog x) i b = next b (arg_part x.arg_of) (prog b.command x.item)
next_call (call_arg x) i b = next b (arg_part x.arg_of) (add_arg b.command x.item)
next_call (call_args x) i b = next b (args_part ⦃a = x.arg_of⦄) (add_args b.command x.items)
next_call (redirect_prog r) i b =
    next b (redirect_part ⦃t = r.target⦄) (redirect b.command r.redirection)
next_call (redirect_term r) i b =
    next b (redirect_part ⦃t = r.target⦄) (redirect b.command r.redirection)
next_call call_and i b = next b and_part (and_then b.command)
next_call call_or i b = next b or_part (or_else b.command)
next_call call_pipe i b = next b pipe_part (pipe_to b.command)
next_call (call_complete bg) i b = absurd i
next_call call_chain i b = absurd i

add_call : {s t : State} (c : Call s t) → IsInner c → Built s → Built t
unfolding first_call next_call
add_call c i (parts b) = next_call c i b
add_call c i empty = first_call c

unfoldable pub build : {t : State} (p : Script need_prog t) → AllInner p → Built t
unfolding add_call
build done i = empty
build (after p c) (i, j) = add_call c j (build p i)

-- The text that the parts write behind `buf`.
written : {s : State} → Built s → Text → Text
written empty buf = buf
written (parts b) buf = b.part_of.write_part b.command.part buf

-- `complete`, and the expansion written as an argument; a command without a program cannot be
-- completed.
unfoldable pub write_built : Built need_term → Escaper → Escaper
unfolding write_expansion complete
write_built (parts b) e =
    write_expansion (then_part ⦃s = b.part_of⦄ ⦃t = term_part⦄) (complete b.command) e

first_call-written :
    {t : State} (c : Call need_prog t) (buf : Text)
    → written (first_call c) buf ≡ (apply c (record { buf = buf })).buf
unfolding written first_call apply
first_call-written (call_env key x) buf = refl
first_call-written (call_envs x) buf = refl
first_call-written (call_prog x) buf = refl
first_call-written (redirect_prog r) buf = refl

next_call-written :
    {s t : State} (c : Call s t) (i : IsInner c) (b : Parts s) (buf : Text)
    → written (next_call c i b) buf ≡ (apply c (record { buf = written (parts b) buf })).buf
unfolding written next_call apply
next_call-written (call_env key x) i b buf = refl
next_call-written (call_envs x) i b buf = refl
next_call-written (call_prog x) i b buf = refl
next_call-written (call_arg x) i b buf = refl
next_call-written (call_args x) i b buf = refl
next_call-written (redirect_prog r) i b buf = refl
next_call-written (redirect_term r) i b buf = refl
next_call-written call_and i b buf = refl
next_call-written call_or i b buf = refl
next_call-written call_pipe i b buf = refl
next_call-written (call_complete bg) i b buf = absurd i
next_call-written call_chain i b buf = absurd i

add_call-written :
    {s t : State} (c : Call s t) (i : IsInner c) (b : Built s) (buf : Text)
    → written (add_call c i b) buf ≡ (apply c (record { buf = written b buf })).buf
unfolding add_call
add_call-written c i (parts b) buf = next_call-written c i b buf
add_call-written c i empty buf = unfold written in first_call-written c buf

build-written :
    {t : State} (p : Script need_prog t) (i : AllInner p) (buf : Text)
    → written (build p i) buf ≡ (run p (record { buf = buf })).buf
unfolding build run written
build-written done i buf = refl
build-written (after p c) (i, j) buf =
    add_call-written c j (build p i) buf
    ∙ ap (λ b. (apply c (record { buf = b })).buf) (build-written p i buf)

write_built-written :
    (b : Built need_term) (e : Escaper)
    → write_built b e
      ≡ record e { buf = (written b (e.buf ++ codes "$(") ++ codes "; ") ++ b')' ∷ [] }
unfolding write_built written
write_built-written (parts b) e = refl

-- `ExpandCommand`, which keeps its parts and writes them when it is written as an argument, writes
-- behind the buffer `$(`, then what `Command` writes for the same calls completed by `;`, and `)`.
pub write_built-run :
    (p : Script need_prog need_term) (i : AllInner p) (e : Escaper)
    → write_built (build p i) e ≡ record e {
      buf =
          into_inner (run (after p (call_complete false)) (record { buf = e.buf ++ codes "$(" }))
          ++ b')' ∷ [];
    }
unfolding run apply into_inner
write_built-run p i e =
    write_built-written (build p i) e
    ∙ ap (λ b. record e { buf = (b ++ codes "; ") ++ b')' ∷ [] })
        (build-written p i (e.buf ++ codes "$("))
