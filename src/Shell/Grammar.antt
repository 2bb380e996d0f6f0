-- ===== src/Shell/Grammar.antt =====
-- Which sequences of tokens are a list of commands in the grammar of a POSIX shell (XCU 2.10),
-- without compound commands: simple commands joined by `|`, `&&`, `||`, `;` and `&`, with
-- redirections among their words. This is a specification, as Shell is; it stands for no code of
-- the repository.
use openrussh_client.Prelude.{
  Text, codes, List, [], ◌∷◌, ◌++◌, ◌≡◌, refl, Bool, true, false, ◌||◌, Option, none, some, text_eq,
  if◌then◌else◌,
}
use openrussh_client.Shell.{Token, word, io_number, op}
use openrussh_client.Shell.Run.{tokens}

-- Where the parser stands: at the start of a list or behind `;` or `&`, where a list may end;
-- behind `&&`, `||` or `|`, where a command has to follow; in a simple command; behind the number
-- of a file descriptor; and behind a redirection operator.
pub data Place : Type 0 where
  start joined inside number target : Place

abbrev pub is_redirection : Text → Bool
is_redirection o =
    text_eq o (codes "<")
    || (text_eq o (codes ">")
        || (text_eq o (codes ">>")
            || (text_eq o (codes "<>") || (text_eq o (codes ">&") || text_eq o (codes "<&")))))

abbrev pub is_joint : Text → Bool
is_joint o = text_eq o (codes "&&") || (text_eq o (codes "||") || text_eq o (codes "|"))

abbrev pub is_end : Text → Bool
is_end o = text_eq o (codes ";") || text_eq o (codes "&")

abbrev pub redirected : Place → Option Place
redirected target = none
redirected _ = some target

-- An operator that ends a command needs one.
abbrev pub ended : Place → Text → Option Place
ended inside o = if is_joint o then some joined else if is_end o then some start else none
ended _ o = none

abbrev pub place : Place → Token → Option Place
place number (word w) = none
place _ (word w) = some inside
place number (io_number n) = none
place target (io_number n) = none
place _ (io_number n) = some number
place p (op o) = if is_redirection o then redirected p else ended p o

abbrev pub place_bind : Option Place → (Place → Option Place) → Option Place
place_bind none f = none
place_bind (some p) f = f p

unfoldable pub walk : Place → List Token → Option Place
walk p [] = some p
walk p (t ∷ ts) = place_bind (place p t) (λ q. walk q ts)

pub walk-append :
    (p : Place) (ts us : List Token) → walk p (ts ++ us) ≡ place_bind (walk p ts) (λ q. walk q us)
unfolding walk
walk-append p [] us = refl
walk-append p (t ∷ ts) us =
    elim (place p t)
      as (λ o.
        place_bind o (λ q. walk q (ts ++ us))
        ≡ place_bind (place_bind o (λ q. walk q ts)) (λ q. walk q us)) [
          | none ↦ refl
          | some q ↦ walk-append q ts us
        ]

abbrev pub is_complete : Option Place → Bool
is_complete (some start) = true
is_complete (some inside) = true
is_complete _ = false

-- A command line that the shell cuts into tokens, and takes for a list of commands.
abbrev pub tokens_parse : Option (List Token) → Bool
tokens_parse none = false
tokens_parse (some ts) = is_complete (walk start ts)

unfoldable pub parses : Text → Bool
unfolding walk
parses s = tokens_parse (tokens s)
