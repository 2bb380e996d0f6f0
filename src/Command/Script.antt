-- ===== src/Command/Script.antt =====
-- A program that calls the builder's methods in an order that their types allow, and what a shell
-- reads from the command that it builds.
use openrussh_client.Prelude.{
  Text, codes, List, [], ◌∷◌, ◌++◌, append_assoc, append-nil, ◌≡◌, refl, sym, ap, ◌∙◌, Bool, true,
  false, Option, none, some, all, arith,
}
use openrussh_client.Shell.{Token, between, word, step}
use openrussh_client.Shell.Run.{Reads, read, Reads-append, tokens, tokens_lem}
use openrussh_client.Escape.Arg.{Arg}
use openrussh_client.Escape.Reading.{Literal}
use openrussh_client.Command.{arg, redir}
use openrussh_client.Command.Key.Name.{name_prefix, IsUtf8, valid_key-name_prefix}
use openrussh_client.Command.Builder.{
  State, need_prog, completed, Command, new, env_at, env_into, envs_into, args_into, into_inner,
}
use openrussh_client.Command.Assignment.{
  assignment_text, env_at-text, Reads-assignment, name_prefix-IsName,
}
use openrussh_client.Command.Reading.{quoted_text, arg-quoted_text, Reads-arg}
use openrussh_client.Command.Redirection.{
  redirect_text, redir-text, redirect_tokens, Reads-redirect, redirect_target,
}
use openrussh_client.Command.Call.{
  Redirection, Call, call_env, call_envs, call_prog, call_arg, call_args, redirect_prog,
  redirect_term, call_and, call_or, call_pipe, call_complete, call_chain, apply, assignment_tokens,
  pairs_tokens, PairsValid, items_tokens, call_tokens, CallValid,
}

all_head : {A : Type 0} (p : A → Bool) (x : A) (xs : List A) → all p (x ∷ xs) ≡ true → p x ≡ true
all_head p x xs h = ground arith

all_tail :
    {A : Type 0} (p : A → Bool) (x : A) (xs : List A) → all p (x ∷ xs) ≡ true → all p xs ≡ true
all_tail p x xs h = ground arith

-- `out` is `buf` with a text behind it that is read as the tokens `ts`.
abbrev Adds : Text → List Token → Text → Type 0
Adds buf ts out = (s : Text) × (out ≡ buf ++ s) × Reads between s ts between

Adds-refl : (buf : Text) → Adds buf [] buf
unfolding read
Adds-refl buf = ([], sym (append-nil buf), refl)

Adds-trans : (a b c : Text) (ts us : List Token) → Adds a ts b → Adds b us c → Adds a (ts ++ us) c
Adds-trans a b c ts us (s, p, h) (t, q, k) =
    (s ++ t, q ∙ ap (λ x. x ++ t) p ∙ append_assoc a s t, Reads-append between s t h k)

module _ {A : Type 0} (a : Arg A) (la : Literal a) where
  arg-Adds :
      (x : A) (buf : Text) → la.is_valid x ≡ true → Adds buf (word (la.value x) ∷ []) (arg a buf x)
  arg-Adds x buf v =
      (quoted_text a la x ++ codes " ", arg-quoted_text a la x buf, Reads-arg a la x v)

  env_at-Adds :
      (key : Text) (x : A) (buf : Text) (o : Option Text)
      → name_prefix key ≡ o
      → la.is_valid x ≡ true
      → Adds buf (assignment_tokens o (la.value x)) (env_at a buf x o)
  unfolding env_at
  env_at-Adds key x buf none e v = Adds-refl buf
  env_at-Adds key x buf (some k) e v = (
    assignment_text a la k x,
    env_at-text a la k x buf,
    Reads-assignment a la k x (name_prefix-IsName key k e) v,
  )

  env_into-Adds :
      (key : Text) (x : A) (buf : Text)
      → IsUtf8 key
      → la.is_valid x ≡ true
      → Adds buf (assignment_tokens (name_prefix key) (la.value x)) (env_into a buf key x)
  unfolding env_into
  env_into-Adds key x buf u v =
      rw (valid_key-name_prefix key u) (env_at-Adds key x buf (name_prefix key) refl v)

  envs_into-Adds :
      (xs : List (Text × A)) (buf : Text)
      → PairsValid la xs
      → Adds buf (pairs_tokens la xs) (envs_into a buf xs)
  unfolding envs_into
  envs_into-Adds [] buf v = Adds-refl buf
  envs_into-Adds ((key, x) ∷ xs) buf ((u, v), vs) =
      Adds-trans _ _ _ _ _ (env_into-Adds key x buf u v)
        (envs_into-Adds xs (env_into a buf key x) vs)

  args_into-Adds :
      (xs : List A) (buf : Text)
      → all la.is_valid xs ≡ true
      → Adds buf (items_tokens la xs) (args_into a buf xs)
  unfolding args_into
  args_into-Adds [] buf v = Adds-refl buf
  args_into-Adds (x ∷ xs) buf v =
      Adds-trans buf (arg a buf x) (args_into a (arg a buf x) xs) (word (la.value x) ∷ [])
        (items_tokens la xs) (arg-Adds x buf (all_head la.is_valid x xs v))
        (args_into-Adds xs (arg a buf x) (all_tail la.is_valid x xs v))

redir-Adds :
    (r : Redirection) (buf : Text)
    → r.literal.is_valid (redirect_target r.redirection) ≡ true
    → Adds buf (redirect_tokens r.target r.literal r.redirection) (redir r.target buf r.redirection)
redir-Adds r buf v = (
  redirect_text r.target r.literal r.redirection,
  redir-text r.target r.literal r.redirection buf,
  Reads-redirect r.target r.literal r.redirection v,
)

-- Every call appends to the buffer a text that the shell reads as what the call asks for.
Call-Adds :
    {s t : State} (c : Call s t) (cmd : Command s)
    → CallValid c
    → Adds cmd.buf (call_tokens c) (apply c cmd).buf
unfolding apply read step
Call-Adds (call_env key x) cmd v = env_into-Adds x.arg_of x.literal key x.item cmd.buf v.0 v.1
Call-Adds (call_envs x) cmd v = envs_into-Adds x.arg_of x.literal x.pairs cmd.buf v
Call-Adds (call_prog x) cmd v = arg-Adds x.arg_of x.literal x.item cmd.buf v
Call-Adds (call_arg x) cmd v = arg-Adds x.arg_of x.literal x.item cmd.buf v
Call-Adds (call_args x) cmd v = args_into-Adds x.arg_of x.literal x.items cmd.buf v
Call-Adds (redirect_prog r) cmd v = redir-Adds r cmd.buf v
Call-Adds (redirect_term r) cmd v = redir-Adds r cmd.buf v
Call-Adds call_and cmd v = (codes "&& ", refl, refl)
Call-Adds call_or cmd v = (codes "|| ", refl, refl)
Call-Adds call_pipe cmd v = (codes "| ", refl, refl)
Call-Adds (call_complete true) cmd v = (codes "& ", refl, refl)
Call-Adds (call_complete false) cmd v = (codes "; ", refl, refl)
Call-Adds call_chain cmd v = Adds-refl cmd.buf

-- A sequence of calls.
pub data Script (s : State) : State → Type 1 where
  done : Script s s
  after : {t u : State} → Script s t → Call t u → Script s u

unfoldable pub run : {s t : State} → Script s t → Command s → Command t
unfolding apply
run done cmd = cmd
run (after p c) cmd = apply c (run p cmd)

abbrev pub script_tokens : {s t : State} → Script s t → List Token
script_tokens done = []
script_tokens (after p c) = script_tokens p ++ call_tokens c

abbrev pub ScriptValid : {s t : State} → Script s t → Type 0
ScriptValid done = Unit {0}
ScriptValid (after p c) = ScriptValid p × CallValid c

run-Adds :
    {s t : State} (p : Script s t) (cmd : Command s)
    → ScriptValid p
    → Adds cmd.buf (script_tokens p) (run p cmd).buf
unfolding run
run-Adds done cmd v = Adds-refl cmd.buf
run-Adds (after p c) cmd (v, w) =
    Adds-trans cmd.buf (run p cmd).buf (apply c (run p cmd)).buf (script_tokens p) (call_tokens c)
      (run-Adds p cmd v) (Call-Adds c (run p cmd) w)

-- Whatever completed command a program builds with the builder's methods, in any order that their
-- types allow, from arguments that stand for texts: the shell cuts the command string into exactly
-- the words, assignments, redirections and operators that the calls ask for, in the order of the
-- calls. No byte of an argument, a path or a value ends its word or starts another.
pub tokens-run :
    (p : Script need_prog completed)
    → ScriptValid p
    → tokens (into_inner (run p new)) ≡ some (script_tokens p)
unfolding into_inner
tokens-run p v = let (s, e, h) = run-Adds p new v in rw e (tokens_lem s h)
