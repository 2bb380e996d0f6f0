-- ===== src/Escape/Reading.antt =====
-- What a shell reads from an argument that the escaper wrote: the interface `Literal` of the
-- arguments that stand for a fixed text, and its implementations.
use openrussh_client.Prelude.{
  ℕ, ◌+◌, Text, codes, [], ◌∷◌, ◌++◌, append_assoc, append-nil, ◌≡◌, refl, ◌∙◌, Bool, true, false,
  arith, All, if◌then◌else◌,
}
use openrussh_client.Shell.{Mode, single, double, step}
use openrussh_client.Shell.Run.{Reads, read, Reads-append}
use openrussh_client.Escape.{SurroundBy, Escaper, encode_utf8, escape_str}
use openrussh_client.Escape.Bytes.{quote, quote_all, append, IsPlain, escape_str-quote_all}
use openrussh_client.Escape.Chars.{escape_char-eq-escape_str, escape_fmt-flatten}
use mathlib.Core.List.{flatten}
use mathlib.Core.Path.{subst}
use openrussh_client.Escape.Bytes.{quote_all-plain, write_raw-append}
use openrussh_client.Escape.Number.{IsDigit, Signed, format_into, format_signed, format_into-digits}
use openrussh_client.Escape.Arg.{
  Arg, str_arg, char_arg, display_arg, bool_arg, unsigned_arg, signed_arg,
}

-- The reader inside the surrounding quotes.
abbrev pub quoted : SurroundBy → Text → Mode
quoted SurroundBy.double w = double w
quoted SurroundBy.single w = single w

Reads-single :
    (w : Text) (c : ℕ) → Reads (single w) (quote SurroundBy.single c) [] (single (w ++ c ∷ []))
unfolding read step
Reads-single w c = ground arith

Reads-double :
    (w : Text) (c : ℕ) → Reads (double w) (quote SurroundBy.double c) [] (double (w ++ c ∷ []))
unfolding read step
Reads-double w c = ground arith

pub Reads-quote :
    (r : SurroundBy) (w : Text) (c : ℕ) → Reads (quoted r w) (quote r c) [] (quoted r (w ++ c ∷ []))
Reads-quote SurroundBy.double = Reads-double
Reads-quote SurroundBy.single = Reads-single

-- Inside the quotes that it was escaped for, a text is read as itself, whatever its bytes are.
pub Reads-quote_all :
    (r : SurroundBy) (w s : Text) → Reads (quoted r w) (quote_all r s) [] (quoted r (w ++ s))
unfolding quote_all read
Reads-quote_all r w [] = rw (append-nil w)
Reads-quote_all r w (c ∷ s) = rw (← append_assoc w (c ∷ []) s) (
    Reads-append (quoted r w) (quote r c) (quote_all r s) (Reads-quote r w c)
      (Reads-quote_all r (w ++ c ∷ []) s))

-- The arguments that stand for a text, `value`: what is written between the quotes, `output`, is
-- appended to the buffer, and the shell reads it as that text.
pub record Literal {A : Type 0} (a : Arg A) : Type 0 where
  pub is_valid : A → Bool
  pub value : A → Text
  pub output : SurroundBy → A → Text
  pub writes : (x : A) (e : Escaper) → a.write x e ≡ append e (output e.surr x)
  pub reads :
      (x : A) (r : SurroundBy) (w : Text)
      → is_valid x ≡ true
      → Reads (quoted r w) (output r x) [] (quoted r (w ++ value x))

instance abbrev pub str_literal : Literal str_arg
str_literal = record {
  is_valid = λ x. true;
  value = λ x. x.text;
  output = λ r x. quote_all r x.text;
  writes = λ x e. escape_str-quote_all e x.text;
  reads = λ x r w _. Reads-quote_all r w x.text;
}

instance abbrev pub char_literal : Literal char_arg
char_literal = record {
  is_valid = λ x. true;
  value = λ x. encode_utf8 x.code;
  output = λ r x. quote_all r (encode_utf8 x.code);
  writes = λ x e. escape_char-eq-escape_str e x.code ∙ escape_str-quote_all e (encode_utf8 x.code);
  reads = λ x r w _. Reads-quote_all r w (encode_utf8 x.code);
}

instance abbrev pub display_literal : Literal display_arg
display_literal = record {
  is_valid = λ x. true;
  value = λ x. flatten x.pieces;
  output = λ r x. quote_all r (flatten x.pieces);
  writes = λ x e. escape_fmt-flatten e x.pieces ∙ escape_str-quote_all e (flatten x.pieces);
  reads = λ x r w _. Reads-quote_all r w (flatten x.pieces);
}

-- What holds no special byte is written as it is, and read as if it had been escaped.
pub Reads-plain :
    (r : SurroundBy) (w s : Text) → All IsPlain s → Reads (quoted r w) s [] (quoted r (w ++ s))
Reads-plain r w s h =
    subst (λ t. Reads (quoted r w) t [] (quoted r (w ++ s))) (quote_all-plain r s h)
      (Reads-quote_all r w s)

pub bool-IsPlain : (b : Bool) → All IsPlain (if b then codes "true" else codes "false")
bool-IsPlain true = ground arith
bool-IsPlain false = ground arith

instance abbrev pub bool_literal : Literal bool_arg
bool_literal = record {
  is_valid = λ x. true;
  value = λ b. if b then codes "true" else codes "false";
  output = λ r b. if b then codes "true" else codes "false";
  writes = λ b e. write_raw-append e (if b then codes "true" else codes "false");
  reads = λ b r w _. Reads-plain r w (if b then codes "true" else codes "false") (bool-IsPlain b);
}

pub digits-IsPlain : (s : Text) → All IsDigit s → All IsPlain s
digits-IsPlain [] h = tt
digits-IsPlain (c ∷ s) (p, h) = ((ground arith, ground arith), digits-IsPlain s h)

instance abbrev pub unsigned_literal : Literal unsigned_arg
unsigned_literal = record {
  is_valid = λ x. true;
  value = λ n. format_into n.number;
  output = λ r n. format_into n.number;
  writes = λ n e. write_raw-append e (format_into n.number);
  reads = λ n r w _.
      Reads-plain r w (format_into n.number) (digits-IsPlain _ (format_into-digits n.number));
}

pub signed-IsPlain : (n : Signed) → All IsPlain (format_signed n)
unfolding format_signed
signed-IsPlain (Signed.nonnegative n) = digits-IsPlain _ (format_into-digits n)
signed-IsPlain (Signed.negative n) = ((refl, refl), digits-IsPlain _ (format_into-digits (n + 1)))

instance abbrev pub signed_literal : Literal signed_arg
signed_literal = record {
  is_valid = λ x. true;
  value = λ n. format_signed n;
  output = λ r n. format_signed n;
  writes = λ n e. write_raw-append e (format_signed n);
  reads = λ n r w _. Reads-plain r w (format_signed n) (signed-IsPlain n);
}

-- What `escape_str` writes to an empty buffer is read, inside the quotes that the escaper was made
-- for and behind any text `w`, as the string itself, and the quotes stay open.
pub Reads-escape_str :
    (r : SurroundBy) (w s : Text)
    → Reads (quoted r w) (escape_str (record { buf = []; surr = r }) s).buf [] (quoted r (w ++ s))
unfolding append
Reads-escape_str r w s =
    rw (escape_str-quote_all (record { buf = []; surr = r }) s) (Reads-quote_all r w s)
