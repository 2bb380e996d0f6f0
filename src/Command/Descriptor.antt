-- ===== src/Command/Descriptor.antt =====
-- What a shell reads from the number of a file descriptor, before a redirection operator or behind it.
use openrussh_client.Prelude.{
  ℕ, Text, codes, List, [], ◌∷◌, ◌++◌, append_assoc, append-nil, ◌≡◌, ◌≢◌, refl, true, false, some,
  All, all, arith,
}
use openrussh_client.Shell.{
  Token, Mode, between, operator, unquoted, word, op, io_number, step, is_digit,
}
use openrussh_client.Shell.Run.{Reads, read, Reads-append, Reads-cons}
use openrussh_client.Escape.Number.{IsDigit}
use openrussh_client.Command.{RedirectMode, path_target, dup_target, mode_text}

step_digit :
    (w : Text) (c : ℕ)
    → IsDigit c
    → step (unquoted false w) c ≡ some ([], unquoted false (w ++ c ∷ []))
unfolding step
step_digit w c h = ground arith

Reads-digits :
    (w s : Text) → All IsDigit s → Reads (unquoted false w) s [] (unquoted false (w ++ s))
unfolding read
Reads-digits w [] h = rw (append-nil w)
Reads-digits w (c ∷ s) (p, h) =
    rw (← append_assoc w (c ∷ []) s)
      (Reads-cons (unquoted false w) c s (step_digit w c p) (Reads-digits (w ++ c ∷ []) s h))

Reads-blank : (w : Text) → Reads (unquoted false w) (codes " ") (word w ∷ []) between
unfolding read step
Reads-blank w = refl

-- Digits behind an operator that no digit continues are the next word.
Reads-word_of_digits :
    (m : Mode) (ts : List Token) (s : Text)
    → ((c : ℕ) → IsDigit c → step m c ≡ some (ts, unquoted false (c ∷ [])))
    → s ≢ []
    → All IsDigit s
    → Reads m (s ++ codes " ") (ts ++ word s ∷ []) between
Reads-word_of_digits m ts [] first ne h = absurd (ne refl)
Reads-word_of_digits m ts (c ∷ s) first ne (p, h) = Reads-cons m c (s ++ codes " ") (first c p) (
    Reads-append (unquoted false (c ∷ [])) s (codes " ") (Reads-digits (c ∷ []) s h)
      (Reads-blank (c ∷ s)))

-- The operator in front of a digit ends there.
after_operator_digit :
    (c : ℕ)
    → IsDigit c
    → step (operator (codes "&")) c ≡ some (op (codes "&") ∷ [], unquoted false (c ∷ []))
unfolding step
after_operator_digit c h = ground arith

after_long_digit :
    (a b c : ℕ)
    → IsDigit c
    → step (operator (a ∷ b ∷ [])) c ≡ some (op (a ∷ b ∷ []) ∷ [], unquoted false (c ∷ []))
unfolding step
after_long_digit a b c h = ground arith

-- `>&` and `<&` are operators; behind `>>` and `<>` the `&` is one of its own.
abbrev pub dup_tokens : RedirectMode → Text → List Token
dup_tokens RedirectMode.read n = op (codes "<&") ∷ word n ∷ []
dup_tokens RedirectMode.write n = op (codes ">&") ∷ word n ∷ []
dup_tokens RedirectMode.append n = op (codes ">>") ∷ op (codes "&") ∷ word n ∷ []
dup_tokens RedirectMode.read_write n = op (codes "<>") ∷ op (codes "&") ∷ word n ∷ []

pub Reads-dup :
    (m : RedirectMode) (n : Text)
    → n ≢ []
    → All IsDigit n
    → Reads (operator (mode_text m)) (b'&' ∷ n ++ codes " ") (dup_tokens m n) between
unfolding step
Reads-dup RedirectMode.read n ne h = Reads-cons (operator (codes "<")) b'&' (n ++ codes " ") refl (
    Reads-word_of_digits (operator (codes "<&")) (op (codes "<&") ∷ []) n
      (after_long_digit b'<' b'&') ne h)
Reads-dup RedirectMode.write n ne h = Reads-cons (operator (codes ">")) b'&' (n ++ codes " ") refl (
    Reads-word_of_digits (operator (codes ">&")) (op (codes ">&") ∷ []) n
      (after_long_digit b'>' b'&') ne h)
Reads-dup RedirectMode.append n ne h =
    Reads-cons (operator (codes ">>")) b'&' (n ++ codes " ") refl (
      Reads-word_of_digits (operator (codes "&")) (op (codes "&") ∷ []) n after_operator_digit ne h)
Reads-dup RedirectMode.read_write n ne h =
    Reads-cons (operator (codes "<>")) b'&' (n ++ codes " ") refl (
      Reads-word_of_digits (operator (codes "&")) (op (codes "&") ∷ []) n after_operator_digit ne h)

abbrev pub fd_tokens : Text → List Token
fd_tokens [] = []
fd_tokens (c ∷ s) = io_number (c ∷ s) ∷ []

all_digits : (s : Text) → All IsDigit s → all is_digit s ≡ true
all_digits [] h = refl
all_digits (c ∷ s) (p, h) = ground (arith, all_digits s h)

Reads-fd_mode :
    (m : RedirectMode) (c : ℕ) (s : Text)
    → all is_digit (c ∷ s) ≡ true
    → Reads (unquoted false (c ∷ s)) (mode_text m) (io_number (c ∷ s) ∷ []) (operator (mode_text m))
unfolding read step
Reads-fd_mode RedirectMode.read c s h = rw h
Reads-fd_mode RedirectMode.write c s h = rw h
Reads-fd_mode RedirectMode.append c s h = rw h
Reads-fd_mode RedirectMode.read_write c s h = rw h

Reads-mode : (m : RedirectMode) → Reads between (mode_text m) [] (operator (mode_text m))
unfolding read step
Reads-mode RedirectMode.read = refl
Reads-mode RedirectMode.write = refl
Reads-mode RedirectMode.append = refl
Reads-mode RedirectMode.read_write = refl

start_digit : (c : ℕ) → IsDigit c → step between c ≡ some ([], unquoted false (c ∷ []))
unfolding step
start_digit c h = ground arith

pub Reads-fd :
    (m : RedirectMode) (n : Text)
    → All IsDigit n
    → Reads between (n ++ mode_text m) (fd_tokens n) (operator (mode_text m))
Reads-fd m [] h = Reads-mode m
Reads-fd m (c ∷ s) (p, h) = Reads-cons between c (s ++ mode_text m) (start_digit c p) (
    Reads-append (unquoted false (c ∷ [])) s (mode_text m) (Reads-digits (c ∷ []) s h)
      (Reads-fd_mode m c s (all_digits (c ∷ s) (p, h))))
