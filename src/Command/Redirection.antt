-- ===== src/Command/Redirection.antt =====
-- What a shell reads from a redirection.
use openrussh_client.Prelude.{
  Text, codes, List, [], ◌∷◌, ◌++◌, append_assoc, ◌≡◌, refl, Bool, true, false, some, All, arith,
  if◌then◌else◌, none,
}
use openrussh_client.Shell.{Token, between, operator, word, op, step}
use openrussh_client.Shell.Run.{Reads, Reads-append}
use openrussh_client.Shell.Grammar.{Place, inside, target, redirected, walk}
use openrussh_client.Escape.Arg.{Arg}
use openrussh_client.Escape.Number.{IsDigit, format_into, format_into-digits, format_into-ne-nil}
use openrussh_client.Escape.Reading.{Literal, quoted}
use openrussh_client.Command.{
  RedirectTo, RedirectMode, Redirect, path_target, dup_target, mode_text, push_redirect, redir,
}
use openrussh_client.Command.Reading.{
  surr_of, mark, quoted_text, push_path-quoted_text, Reads-quoted_text,
}
use openrussh_client.Command.Descriptor.{dup_tokens, Reads-dup, fd_tokens, Reads-fd}

-- The targets that stand for a text: what follows the redirection operator, up to its blank.
pub record LiteralTarget {T : Type 0} (t : RedirectTo T) : Type 0 where
  pub is_valid : T → Bool
  pub tokens : RedirectMode → T → List Token
  pub output : T → Text
  pub writes : (x : T) (buf : Text) → t.push_to x buf ≡ buf ++ output x
  pub reads :
      (m : RedirectMode) (x : T)
      → is_valid x ≡ true
      → Reads (operator (mode_text m)) (output x ++ codes " ") (tokens m x) between
  -- Whether the operator takes such a target, and what the grammar makes of the two.
  pub fits : RedirectMode → Bool
  pub walks :
      (m : RedirectMode) (x : T) (p : Place)
      → redirected p ≡ some target
      → walk p (tokens m x) ≡ (if fits m then some inside else none)

pub after_mode :
    (m : RedirectMode) (d : Bool)
    → step (operator (mode_text m)) (mark d) ≡ some (op (mode_text m) ∷ [], quoted (surr_of d) [])
unfolding step
after_mode RedirectMode.read true = refl
after_mode RedirectMode.read false = refl
after_mode RedirectMode.write true = refl
after_mode RedirectMode.write false = refl
after_mode RedirectMode.append true = refl
after_mode RedirectMode.append false = refl
after_mode RedirectMode.read_write true = refl
after_mode RedirectMode.read_write false = refl

-- The grammar has `<&` and `>&`, but `&` is no target of `>>` and `<>`.
abbrev pub dup_fits : RedirectMode → Bool
dup_fits RedirectMode.read = true
dup_fits RedirectMode.write = true
dup_fits RedirectMode.append = false
dup_fits RedirectMode.read_write = false

pub walk-path :
    (m : RedirectMode) (w : Text) (p : Place)
    → redirected p ≡ some target
    → walk p (op (mode_text m) ∷ word w ∷ []) ≡ some inside
unfolding walk
walk-path RedirectMode.read w p h = rw h
walk-path RedirectMode.write w p h = rw h
walk-path RedirectMode.append w p h = rw h
walk-path RedirectMode.read_write w p h = rw h

pub walk-dup :
    (m : RedirectMode) (w : Text) (p : Place)
    → redirected p ≡ some target
    → walk p (dup_tokens m w) ≡ (if dup_fits m then some inside else none)
unfolding walk
walk-dup RedirectMode.read w p h = rw h
walk-dup RedirectMode.write w p h = rw h
walk-dup RedirectMode.append w p h = rw h
walk-dup RedirectMode.read_write w p h = rw h

instance abbrev pub path_literal :
    {A : Type 0} ⦃a : Arg A⦄ ⦃la : Literal a⦄ → LiteralTarget (path_target {A = A})
path_literal ⦃a⦄ ⦃la⦄ = record {
  is_valid = λ p. la.is_valid p.path;
  tokens = λ m p. op (mode_text m) ∷ word (la.value p.path) ∷ [];
  output = λ p. quoted_text a la p.path;
  writes = λ p buf. push_path-quoted_text a la p.path buf;
  reads = λ m p v.
      Reads-quoted_text a la (operator (mode_text m)) (op (mode_text m) ∷ []) [] p.path v
        (after_mode m a.need_double);
  fits = λ m. true;
  walks = λ m p from h. walk-path m (la.value p.path) from h;
}

instance abbrev pub dup_literal : LiteralTarget dup_target
dup_literal = record {
  is_valid = λ d. true;
  tokens = λ m d. dup_tokens m (format_into d.fd);
  output = λ d. b'&' ∷ format_into d.fd;
  writes = λ d buf. append_assoc buf (b'&' ∷ []) (format_into d.fd);
  reads =
      λ m d _. Reads-dup m (format_into d.fd) (format_into-ne-nil d.fd) (format_into-digits d.fd);
  fits = dup_fits;
  walks = λ m d from h. walk-dup m (format_into d.fd) from h;
}

-- The file descriptor in front of the operator, and the operator of a redirection.
abbrev pub redirect_fd : {T : Type 0} → Redirect T → Text
redirect_fd (Redirect.stdin to) = []
redirect_fd (Redirect.stdout to append) = []
redirect_fd (Redirect.stderr to append) = codes "2"
redirect_fd (Redirect.custom fd to mode) = format_into fd

abbrev pub output_mode : Bool → RedirectMode
output_mode append = if append then RedirectMode.append else RedirectMode.write

abbrev pub redirect_mode : {T : Type 0} → Redirect T → RedirectMode
redirect_mode (Redirect.stdin to) = RedirectMode.read
redirect_mode (Redirect.stdout to append) = output_mode append
redirect_mode (Redirect.stderr to append) = output_mode append
redirect_mode (Redirect.custom fd to mode) = mode

abbrev pub redirect_target : {T : Type 0} → Redirect T → T
redirect_target (Redirect.stdin to) = to
redirect_target (Redirect.stdout to append) = to
redirect_target (Redirect.stderr to append) = to
redirect_target (Redirect.custom fd to mode) = to

fd_digits : {T : Type 0} (r : Redirect T) → All IsDigit (redirect_fd r)
fd_digits (Redirect.stdin to) = tt
fd_digits (Redirect.stdout to append) = tt
fd_digits (Redirect.stderr to append) = omega arith
fd_digits (Redirect.custom fd to mode) = format_into-digits fd

module _ {T : Type 0} (t : RedirectTo T) (lt : LiteralTarget t) where
  pub redirect_text : Redirect T → Text
  redirect_text r =
      redirect_fd r ++ (mode_text (redirect_mode r) ++ (lt.output (redirect_target r) ++ codes " "))

  push_redirect-text :
      (r : Redirect T) (buf : Text) → push_redirect t buf r ++ codes " " ≡ buf ++ redirect_text r
  unfolding push_redirect redirect_text
  push_redirect-text (Redirect.stdin to) buf = simp (lt.writes, append_assoc)
  push_redirect-text (Redirect.stdout to true) buf = simp (lt.writes, append_assoc)
  push_redirect-text (Redirect.stdout to false) buf = simp (lt.writes, append_assoc)
  push_redirect-text (Redirect.stderr to true) buf = simp (lt.writes, append_assoc)
  push_redirect-text (Redirect.stderr to false) buf = simp (lt.writes, append_assoc)
  push_redirect-text (Redirect.custom fd to mode) buf = simp (lt.writes, append_assoc)

  pub redir-text : (r : Redirect T) (buf : Text) → redir t buf r ≡ buf ++ redirect_text r
  unfolding redir
  redir-text r buf = push_redirect-text r buf

  abbrev pub redirect_tokens : Redirect T → List Token
  redirect_tokens r = fd_tokens (redirect_fd r) ++ lt.tokens (redirect_mode r) (redirect_target r)

  -- A redirection is the file descriptor, if one is written, the operator and the target.
  pub Reads-redirect :
      (r : Redirect T)
      → lt.is_valid (redirect_target r) ≡ true
      → Reads between (redirect_text r) (redirect_tokens r) between
  unfolding redirect_text
  Reads-redirect r v =
      rw
        (← append_assoc (redirect_fd r) (mode_text (redirect_mode r))
          (lt.output (redirect_target r) ++ codes " "))
        (Reads-append between (redirect_fd r ++ mode_text (redirect_mode r))
          (lt.output (redirect_target r) ++ codes " ")
          (Reads-fd (redirect_mode r) (redirect_fd r) (fd_digits r))
          (lt.reads (redirect_mode r) (redirect_target r) v))
