-- ===== src/Command/Tests.antt =====
-- Commands of the source's tests, and instances of the theorems.
use openrussh_client.Prelude.{Text, codes, [], ◌∷◌, ◌++◌, ◌≡◌, refl, true, false, none, some}
use openrussh_client.Shell.{word, op, io_number}
use openrussh_client.Shell.Run.{tokens}
use openrussh_client.Escape.{SurroundBy, Escaper, escape_str, write_raw}
use openrussh_client.Escape.Arg.{
  Str, Env, Only, Cons, str_arg, env_arg, only_arg, cons_arg, raw_bytes_arg, write_env,
}
use openrussh_client.Escape.Reading.{str_literal}
use openrussh_client.Escape.Raw.{raw_bytes_literal}
use openrussh_client.Escape.Number.{format_into}
use openrussh_client.Command.{
  Redirect, RedirectMode, RedirectPath, RedirectDup, path_target, dup_target, redir, arg,
}
use openrussh_client.Command.Key.{valid_key}
use openrussh_client.Command.Key.Name.{ascii-IsUtf8, name_prefix, valid_key-name_prefix}
use openrussh_client.Command.Builder
use openrussh_client.Command.Builder.{need_prog, need_term, completed, Command, new, into_inner}
use openrussh_client.Command.Redirection.{path_literal, dup_literal}
use openrussh_client.Command.Call.{
  Item, call_env, call_prog, call_arg, call_pipe, call_complete, redirect_term,
}
use openrussh_client.Command.Script.{Script, run, done, after, tokens-run}
use openrussh_client.Shell.Grammar.{parses}
use openrussh_client.Command.Grammar.{parses-run}
use openrussh_client.Command.Expand.Equal.{build, write_built, write_built-run}

abbrev str_item : Text → Item
str_item s = record {
  Carrier = Str;
  arg_of = str_arg;
  literal = str_literal;
  item = record { text = s };
}

abbrev echo : Command need_term
echo = Builder.prog {A = Str} new (record { text = codes "echo" })

redirects :
    into_inner (
      Builder.complete
        (Builder.redirect {T = RedirectDup}
          (Builder.redirect {T = RedirectPath Str} echo
            (Redirect.stdout (record { path = record { text = codes "abc" } }) true))
          (Redirect.custom 4 (record { fd = 3 }) RedirectMode.read_write))
        true)
    ≡ codes "'echo' >>'abc' 4<>&3 & "
unfolding into_inner Builder.complete Builder.redirect Builder.prog escape_str redir format_into
redirects = refl

illegal_keys :
    (valid_key (codes "ILLEGAL ENV") ≡ some (codes "ILLEGAL"))
    × (valid_key (codes "?ENV") ≡ none)
    × (valid_key [] ≡ none)
unfolding valid_key
illegal_keys = (refl, refl, refl)

double_quoted :
    into_inner (
      Builder.complete
        (Builder.add_arg {A = Cons Str (Only Env)} echo (record {
          component = record { text = codes "I'm " };
          rest = record { component = record { name = codes "me" } };
        }))
        false)
    ≡ codes "'echo' \"I'm ${me}\" ; "
unfolding into_inner Builder.complete Builder.add_arg Builder.prog escape_str write_env write_raw
double_quoted = refl

-- An assignment, a program, an argument that tries to break out, a redirection and an end.
abbrev hostile : Script need_prog completed
hostile =
    after
      (after
        (after
          (after (after done (call_env (codes "A B") (str_item (codes "x"))))
            (call_prog (str_item (codes "echo"))))
          (call_arg (str_item (codes "'; rm -rf / #"))))
        (redirect_term (record {
          Target = RedirectPath Str;
          target = path_target;
          literal = path_literal;
          redirection = Redirect.stderr (record { path = record { text = codes "it's" } }) false;
        })))
      (call_complete false)

tokens-run_example :
    tokens (into_inner (run hostile new))
    ≡ some (
        word (codes "A=x")
        ∷ word (codes "echo")
        ∷ word (codes "'; rm -rf / #")
        ∷ io_number (codes "2")
        ∷ op (codes ">")
        ∷ word (codes "it's")
        ∷ op (codes ";")
        ∷ [])
tokens-run_example =
    tokens-run hostile (((((tt, (ascii-IsUtf8 (codes "A B") refl, refl)), refl), refl), refl), tt)

parses-run_example : parses (into_inner (run hostile new)) ≡ true
parses-run_example =
    parses-run hostile (((((tt, (ascii-IsUtf8 (codes "A B") refl, refl)), refl), refl), refl), tt)

-- `echo >>&3 ;` is no list of commands.
abbrev appended_descriptor : Script need_prog completed
appended_descriptor =
    after
      (after (after done (call_prog (str_item (codes "echo")))) (
        redirect_term (record {
          Target = RedirectDup;
          target = dup_target;
          literal = dup_literal;
          redirection = Redirect.stdout (record { fd = 3 }) true;
        })))
      (call_complete false)

appended_descriptor_refused : parses (into_inner (run appended_descriptor new)) ≡ false
appended_descriptor_refused = parses-run appended_descriptor (((tt, refl), refl), tt)

abbrev inner : Script need_prog need_term
inner =
    after
      (after
        (after (after done (call_prog (str_item (codes "id")))) (call_arg (str_item (codes "-u"))))
        call_pipe)
      (call_prog (str_item (codes "cat")))

abbrev outer : Escaper
outer = record { buf = codes "\""; surr = SurroundBy.double }

expansion :
    (write_built (build inner (((((tt, tt), tt), tt), tt))) outer).buf
    ≡ codes "\"$('id' '-u' | 'cat' ; )"
unfolding write_built build escape_str arg
expansion = refl

write_built-run_example :
    write_built (build inner ((((tt, tt), tt), tt), tt)) outer ≡ record outer {
      buf =
          into_inner (run (after inner (call_complete false)) (record { buf = codes "\"$(" }))
          ++ b')' ∷ [];
    }
write_built-run_example = write_built-run inner ((((tt, tt), tt), tt), tt) outer

valid_key-name_prefix_example : valid_key (codes "FOO-BAR") ≡ name_prefix (codes "FOO-BAR")
valid_key-name_prefix_example =
    valid_key-name_prefix (codes "FOO-BAR") (ascii-IsUtf8 (codes "FOO-BAR") refl)
