-- ===== src/Command/Reading.antt =====
-- What a shell reads from the pieces that the builder writes.
use openrussh_client.Prelude.{
  ℕ, Text, codes, List, [], ◌∷◌, ◌++◌, append_assoc, ◌≡◌, refl, ap, Bool, true, false, some,
  if◌then◌else◌,
}
use openrussh_client.Shell.{Token, Mode, between, word, step}
use openrussh_client.Shell.Run.{Reads, read, Reads-append, Reads-cons}
use openrussh_client.Escape.{SurroundBy}
use openrussh_client.Escape.Bytes.{append}
use openrussh_client.Escape.Arg.{Arg, quote_char}
use openrussh_client.Escape.Reading.{Literal, quoted}
use openrussh_client.Command.{escape, arg, push_path}

-- The quotes that an argument's type asks for.
abbrev pub surr_of : Bool → SurroundBy
surr_of true = SurroundBy.double
surr_of false = SurroundBy.single

abbrev pub mark : Bool → ℕ
mark d = quote_char (surr_of d)

module _ {A : Type 0} (a : Arg A) (la : Literal a) where
  -- The argument between its quotes.
  abbrev pub quoted_text : A → Text
  quoted_text x =
      mark a.need_double ∷ la.output (surr_of a.need_double) x ++ mark a.need_double ∷ []

  pub escape-output :
      (r : SurroundBy) (x : A) (buf : Text) → escape a r x buf ≡ buf ++ la.output r x
  unfolding escape append
  escape-output r x buf = ap (λ e. e.buf) (la.writes x (record { buf = buf; surr = r }))

  pub arg-quoted_text : (x : A) (buf : Text) → arg a buf x ≡ buf ++ (quoted_text x ++ codes " ")
  unfolding arg
  arg-quoted_text x buf = go a.need_double
    where
      go :
          (d : Bool)
          → (if d
              then escape a SurroundBy.double x (buf ++ b'"' ∷ []) ++ codes "\" "
              else escape a SurroundBy.single x (buf ++ b'\'' ∷ []) ++ codes "' ")
            ≡ buf ++ ((mark d ∷ la.output (surr_of d) x ++ mark d ∷ []) ++ codes " ")
      go true = simp (escape-output, append_assoc)
      go false = simp (escape-output, append_assoc)

  pub push_path-quoted_text : (x : A) (buf : Text) → push_path a x buf ≡ buf ++ quoted_text x
  unfolding push_path
  push_path-quoted_text x buf = go a.need_double
    where
      go :
          (d : Bool)
          → (if d
              then escape a SurroundBy.double x (buf ++ b'"' ∷ []) ++ b'"' ∷ []
              else escape a SurroundBy.single x (buf ++ b'\'' ∷ []) ++ b'\'' ∷ [])
            ≡ buf ++ (mark d ∷ la.output (surr_of d) x ++ mark d ∷ [])
      go true = simp (escape-output, append_assoc)
      go false = simp (escape-output, append_assoc)

  Reads-close :
      (r : SurroundBy) (w : Text)
      → Reads (quoted r w) (quote_char r ∷ codes " ") (word w ∷ []) between
  unfolding read step
  Reads-close SurroundBy.single w = refl
  Reads-close SurroundBy.double w = refl

  -- From a mode in which the opening quote starts or goes on with the word `w`.
  pub Reads-quoted_text :
      (m : Mode) (ts : List Token) (w : Text) (x : A)
      → la.is_valid x ≡ true
      → step m (mark a.need_double) ≡ some (ts, quoted (surr_of a.need_double) w)
      → Reads m (quoted_text x ++ codes " ") (ts ++ word (w ++ la.value x) ∷ []) between
  Reads-quoted_text m ts w x v h =
      rw (append_assoc (la.output (surr_of a.need_double) x) (mark a.need_double ∷ []) (codes " "))
        (Reads-cons m (mark a.need_double)
          (la.output (surr_of a.need_double) x ++ mark a.need_double ∷ codes " ") h
          (Reads-append (quoted (surr_of a.need_double) w) (la.output (surr_of a.need_double) x)
            (mark a.need_double ∷ codes " ") (la.reads x (surr_of a.need_double) w v)
            (Reads-close (surr_of a.need_double) (w ++ la.value x))))

start_quote : (d : Bool) → step between (mark d) ≡ some ([], quoted (surr_of d) [])
unfolding step
start_quote true = refl
start_quote false = refl

module _ {A : Type 0} (a : Arg A) (la : Literal a) where
  -- A program name or an argument is one word.
  pub Reads-arg :
      (x : A)
      → la.is_valid x ≡ true
      → Reads between (quoted_text a la x ++ codes " ") (word (la.value x) ∷ []) between
  Reads-arg x v = Reads-quoted_text a la between [] [] x v (start_quote a.need_double)
