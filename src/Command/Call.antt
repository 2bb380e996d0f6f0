-- ===== src/Command/Call.antt =====
-- The calls of the builder's methods (src/process/cmd.rs), with the tokens that each asks for.
use openrussh_client.Prelude.{
  Text, codes, List, [], ◌∷◌, ◌++◌, ◌≡◌, Bool, true, Option, none, some, all, if◌then◌else◌,
}
use openrussh_client.Shell.{Token, word, op}
use openrussh_client.Escape.Arg.{Arg}
use openrussh_client.Escape.Reading.{Literal}
use openrussh_client.Command.{RedirectTo, Redirect}
use openrussh_client.Command.Key.Name.{name_prefix, IsUtf8}
use openrussh_client.Command.Builder.{
  State, need_prog, need_term, completed, Command, env, envs, prog, add_arg, add_args, redirect,
  and_then, or_else, pipe, complete, chain,
}
use openrussh_client.Command.Redirection.{LiteralTarget, redirect_tokens, redirect_target}

-- An argument of any literal type.
pub record Item : Type 1 where
  pub Carrier : Type 0
  pub arg_of : Arg Carrier
  pub literal : Literal arg_of
  pub item : Carrier

-- Items of one literal type, as `args` takes them, and with their keys, as `envs` does.
pub record Items : Type 1 where
  pub Carrier : Type 0
  pub arg_of : Arg Carrier
  pub literal : Literal arg_of
  pub items : List Carrier

pub record Pairs : Type 1 where
  pub Carrier : Type 0
  pub arg_of : Arg Carrier
  pub literal : Literal arg_of
  pub pairs : List (Text × Carrier)

pub record Redirection : Type 1 where
  pub Target : Type 0
  pub target : RedirectTo Target
  pub literal : LiteralTarget target
  pub redirection : Redirect Target

-- One call of a method, by the state before and after it.
pub data Call : State → State → Type 1 where
  call_env : Text → Item → Call need_prog need_prog
  call_envs : Pairs → Call need_prog need_prog
  call_prog : Item → Call need_prog need_term
  call_arg : Item → Call need_term need_term
  call_args : Items → Call need_term need_term
  redirect_prog : Redirection → Call need_prog need_prog
  redirect_term : Redirection → Call need_term need_term
  call_and call_or call_pipe : Call need_term need_prog
  call_complete : Bool → Call need_term completed
  call_chain : Call completed need_prog

unfoldable pub apply : {s t : State} → Call s t → Command s → Command t
unfolding env envs prog add_arg add_args redirect and_then or_else pipe complete chain
apply (call_env key x) c = env ⦃a = x.arg_of⦄ c key x.item
apply (call_envs x) c = envs ⦃a = x.arg_of⦄ c x.pairs
apply (call_prog x) c = prog ⦃a = x.arg_of⦄ c x.item
apply (call_arg x) c = add_arg ⦃a = x.arg_of⦄ c x.item
apply (call_args x) c = add_args ⦃a = x.arg_of⦄ c x.items
apply (redirect_prog r) c = redirect ⦃t = r.target⦄ c r.redirection
apply (redirect_term r) c = redirect ⦃t = r.target⦄ c r.redirection
apply call_and c = and_then c
apply call_or c = or_else c
apply call_pipe c = pipe c
apply (call_complete bg) c = complete c bg
apply call_chain c = chain c

-- The word of an assignment; there is none if the key starts with no name.
abbrev pub assignment_tokens : Option Text → Text → List Token
assignment_tokens none value = []
assignment_tokens (some k) value = word (k ++ (b'=' ∷ value)) ∷ []

module _ {A : Type 0} {a : Arg A} (la : Literal a) where
  abbrev pub pairs_tokens : List (Text × A) → List Token
  pairs_tokens [] = []
  pairs_tokens ((key, x) ∷ xs) = assignment_tokens (name_prefix key) (la.value x) ++ pairs_tokens xs

  abbrev pub PairsValid : List (Text × A) → Type 0
  PairsValid [] = Unit {0}
  PairsValid ((key, x) ∷ xs) = (IsUtf8 key × (la.is_valid x ≡ true)) × PairsValid xs

  abbrev pub items_tokens : List A → List Token
  items_tokens [] = []
  items_tokens (x ∷ xs) = word (la.value x) ∷ items_tokens xs

-- What the call asks for.
abbrev pub call_tokens : {s t : State} → Call s t → List Token
call_tokens (call_env key x) = assignment_tokens (name_prefix key) (x.literal.value x.item)
call_tokens (call_envs x) = pairs_tokens x.literal x.pairs
call_tokens (call_prog x) = word (x.literal.value x.item) ∷ []
call_tokens (call_arg x) = word (x.literal.value x.item) ∷ []
call_tokens (call_args x) = items_tokens x.literal x.items
call_tokens (redirect_prog r) = redirect_tokens r.target r.literal r.redirection
call_tokens (redirect_term r) = redirect_tokens r.target r.literal r.redirection
call_tokens call_and = op (codes "&&") ∷ []
call_tokens call_or = op (codes "||") ∷ []
call_tokens call_pipe = op (codes "|") ∷ []
call_tokens (call_complete bg) = op (if bg then codes "&" else codes ";") ∷ []
call_tokens call_chain = []

-- Keys are UTF-8 text, and the arguments are valid.
abbrev pub CallValid : {s t : State} → Call s t → Type 0
CallValid (call_env key x) = IsUtf8 key × (x.literal.is_valid x.item ≡ true)
CallValid (call_envs x) = PairsValid x.literal x.pairs
CallValid (call_prog x) = x.literal.is_valid x.item ≡ true
CallValid (call_arg x) = x.literal.is_valid x.item ≡ true
CallValid (call_args x) = all x.literal.is_valid x.items ≡ true
CallValid (redirect_prog r) = r.literal.is_valid (redirect_target r.redirection) ≡ true
CallValid (redirect_term r) = r.literal.is_valid (redirect_target r.redirection) ≡ true
CallValid call_and = Unit {0}
CallValid call_or = Unit {0}
CallValid call_pipe = Unit {0}
CallValid (call_complete bg) = Unit {0}
CallValid call_chain = Unit {0}
