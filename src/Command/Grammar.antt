-- ===== src/Command/Grammar.antt =====
-- Whether a shell takes a command that a program has built for a list of commands (src/process/cmd.rs).
use openrussh_client.Prelude.{
  Text, List, [], ◌∷◌, ◌++◌, ◌≡◌, refl, ◌∙◌, Bool, true, false, ◌&&◌, Option, none, some,
  if◌then◌else◌,
}
use openrussh_client.Shell.{Token, word, io_number}
use openrussh_client.Shell.Grammar.{
  Place, start, joined, inside, number, target, redirected, place_bind, walk, walk-append,
  is_complete, parses,
}
use openrussh_client.Escape.Arg.{Arg}
use openrussh_client.Escape.Reading.{Literal}
use openrussh_client.Command.Key.Name.{name_prefix}
use openrussh_client.Command.Builder.{State, need_prog, need_term, completed, new, into_inner}
use openrussh_client.Command.Redirection.{
  redirect_fd, redirect_mode, redirect_target, redirect_tokens,
}
use openrussh_client.Command.Descriptor.{fd_tokens}
use openrussh_client.Command.Call.{
  Redirection, Call, call_env, call_envs, call_prog, call_arg, call_args, redirect_prog,
  redirect_term, call_and, call_or, call_pipe, call_complete, call_chain, assignment_tokens,
  pairs_tokens, items_tokens, call_tokens,
}
use openrussh_client.Command.Script.{
  Script, run, done, after, script_tokens, ScriptValid, tokens-run,
}

-- The operator of a redirection takes its target.
abbrev pub redirection_fits : Redirection → Bool
redirection_fits r = r.literal.fits (redirect_mode r.redirection)

abbrev pub call_fits : {s t : State} → Call s t → Bool
call_fits (redirect_prog r) = redirection_fits r
call_fits (redirect_term r) = redirection_fits r
call_fits _ = true

abbrev pub script_fits : {s t : State} → Script s t → Bool
script_fits done = true
script_fits (after p c) = script_fits p && call_fits c

-- A word may stand here.
abbrev is_open : Place → Bool
is_open start = true
is_open joined = true
is_open inside = true
is_open _ = false

-- Where the parser stands when the builder is in a state.
abbrev At : State → Place → Type 0
At need_prog p = is_open p ≡ true
At need_term p = p ≡ inside
At completed p = p ≡ start

-- The parser has got on to a place for the state, or not at all if an operator does not fit.
abbrev Walked : Bool → State → Option Place → Type 0
Walked true t (some p) = At t p
Walked true t none = ⊥
Walked false t o = o ≡ none

open-redirected : (p : Place) → is_open p ≡ true → redirected p ≡ some target
open-redirected start h = refl
open-redirected joined h = refl
open-redirected inside h = refl
open-redirected number h = cc
open-redirected target h = cc

walk-word : (p : Place) (w : Text) → is_open p ≡ true → walk p (word w ∷ []) ≡ some inside
unfolding walk
walk-word start w h = refl
walk-word joined w h = refl
walk-word inside w h = refl
walk-word number w h = cc
walk-word target w h = cc

walk-number :
    (p : Place) (fd : Text) (ts : List Token)
    → is_open p ≡ true
    → walk p (io_number fd ∷ ts) ≡ walk number ts
unfolding walk
walk-number start fd ts h = refl
walk-number joined fd ts h = refl
walk-number inside fd ts h = refl
walk-number number fd ts h = cc
walk-number target fd ts h = cc

-- Words may follow an open place, and behind them a word may stand again.
walk-assignment :
    (p : Place) (k : Option Text) (value : Text)
    → is_open p ≡ true
    → (q : Place) × (walk p (assignment_tokens k value) ≡ some q) × (is_open q ≡ true)
unfolding walk
walk-assignment p none value h = (p, refl, h)
walk-assignment p (some k) value h = (inside, walk-word p _ h, refl)

module _ {A : Type 0} {a : Arg A} (la : Literal a) where
  walk-items : (xs : List A) → walk inside (items_tokens la xs) ≡ some inside
  unfolding walk
  walk-items [] = refl
  walk-items (x ∷ xs) = walk-items xs

  walk-pairs :
      (p : Place) (xs : List (Text × A))
      → is_open p ≡ true
      → (q : Place) × (walk p (pairs_tokens la xs) ≡ some q) × (is_open q ≡ true)
  unfolding walk
  walk-pairs p [] h = (p, refl, h)
  walk-pairs p ((key, x) ∷ xs) h =
      let (q, e, k) = walk-assignment p (name_prefix key) (la.value x) h in
      let (r, d, l) = walk-pairs q xs k in
      (
        r,
        walk-append p (assignment_tokens (name_prefix key) (la.value x)) (pairs_tokens la xs)
            ∙ rw (e, d) refl,
        l,
      )

walk-redirection :
    (r : Redirection) (p : Place)
    → is_open p ≡ true
    → walk p (redirect_tokens r.target r.literal r.redirection)
      ≡ (if redirection_fits r then some inside else none)
walk-redirection r p h = behind (redirect_fd r.redirection)
  where
    behind :
        (fd : Text)
        → walk p (
            fd_tokens fd
            ++ r.literal.tokens (redirect_mode r.redirection) (redirect_target r.redirection))
          ≡ (if redirection_fits r then some inside else none)
    behind [] = r.literal.walks _ _ p (open-redirected p h)
    behind (c ∷ fd) = walk-number p (c ∷ fd) _ h ∙ r.literal.walks _ _ number refl

if-Walked :
    (b : Bool) (t : State) (o : Option Place)
    → At t inside
    → o ≡ (if b then some inside else none)
    → Walked b t o
if-Walked true t o h e = rw e h
if-Walked false t o h e = e

some-Walked : (t : State) (o : Option Place) (q : Place) → o ≡ some q → At t q → Walked true t o
some-Walked t o q e h = rw e h

-- Every call gets the parser from a place of the state before it to one of the state behind it.
Call-Walked :
    {s t : State} (c : Call s t) (p : Place)
    → At s p
    → Walked (call_fits c) t (walk p (call_tokens c))
unfolding walk
Call-Walked (call_env key x) p h =
    let (q, e, k) = walk-assignment p (name_prefix key) (x.literal.value x.item) h in
    some-Walked need_prog _ q e k
Call-Walked (call_envs x) p h =
    let (q, e, k) = walk-pairs x.literal p x.pairs h in some-Walked need_prog _ q e k
Call-Walked (call_prog x) p h = some-Walked need_term _ inside (walk-word p _ h) refl
Call-Walked (call_arg x) p h = some-Walked need_term _ inside (rw h) refl
Call-Walked (call_args x) p h =
    some-Walked need_term _ inside (rw h (walk-items x.literal x.items)) refl
Call-Walked (redirect_prog r) p h =
    if-Walked (redirection_fits r) need_prog _ refl (walk-redirection r p h)
Call-Walked (redirect_term r) p h =
    if-Walked (redirection_fits r) need_term _ refl (walk-redirection r p (rw h refl))
Call-Walked call_and p h = some-Walked need_prog _ joined (rw h) refl
Call-Walked call_or p h = some-Walked need_prog _ joined (rw h) refl
Call-Walked call_pipe p h = some-Walked need_prog _ joined (rw h) refl
Call-Walked (call_complete true) p h = some-Walked completed _ start (rw h) refl
Call-Walked (call_complete false) p h = some-Walked completed _ start (rw h) refl
Call-Walked call_chain p h = rw h refl

bind-Walked :
    (s t : State) (a b : Bool) (o : Option Place) (f : Place → Option Place)
    → Walked a s o
    → ((p : Place) → At s p → Walked b t (f p))
    → Walked (a && b) t (place_bind o f)
bind-Walked s t true b (some p) f w h = h p w
bind-Walked s t true b none f w h = absurd w
bind-Walked s t false b o f w h = rw w refl

Script-Walked :
    {s t : State} (p : Script s t) (from : Place)
    → At s from
    → Walked (script_fits p) t (walk from (script_tokens p))
unfolding walk
Script-Walked done from h = h
Script-Walked (after p c) from h = rw (walk-append from (script_tokens p) (call_tokens c)) (
    bind-Walked _ _ (script_fits p) (call_fits c) (walk from (script_tokens p)) _
      (Script-Walked p from h) (Call-Walked c))

Walked-complete : (b : Bool) (o : Option Place) → Walked b completed o → is_complete o ≡ b
Walked-complete true (some p) w = rw w refl
Walked-complete true none w = absurd w
Walked-complete false o w = rw w refl

-- A shell takes a command that a program has built with the builder's methods, from arguments that
-- stand for texts, for a list of commands exactly if no redirection asks for `>>` or `<>` with a
-- file descriptor as its target: the types of the methods rule out every other error of syntax.
pub parses-run :
    (p : Script need_prog completed)
    → ScriptValid p
    → parses (into_inner (run p new)) ≡ script_fits p
unfolding parses
parses-run p v =
    rw (tokens-run p v) (Walked-complete (script_fits p) _ (Script-Walked p start refl))
