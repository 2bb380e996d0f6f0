-- ===== src/Escape/Chars.antt =====
-- What `escape_char` and `escape_fmt` append.
use openrussh_client.Prelude.{
  ℕ, ◌⊎◌, ◌≤◌, ◌<◌, All, Text, List, [], ◌∷◌, ◌≡◌, sym, ap, ◌∙◌, false, arith, ltb, ◌==◌,
  Bool-cases, inl, inr,
}
use mathlib.Core.List.{flatten}
use openrussh_client.Escape.{
  escape_char_single, escape_char_double, SurroundBy, Escaper, encode_utf8, write_raw,
  write_raw_char, is_target, escape_str, escape_char, escape_char_by, escape_fmt,
}
use openrussh_client.Escape.Bytes.{
  quote_all, append, append_twice, append_nothing, escape_str-quote_all, quote_all-append, IsPlain,
  quote_all-plain,
}

-- The bytes from 0x80 up: those that spell the characters that are not ASCII.
abbrev IsHigh : ℕ → Type 0
IsHigh c = 0x80 ≤ c

high-IsPlain : (s : Text) → All IsHigh s → All IsPlain s
high-IsPlain [] h = tt
high-IsPlain (c ∷ s) (p, h) = ((ground arith, ground arith), high-IsPlain s h)

-- The bytes of a character that is not ASCII are all plain.
encode-IsHigh : (c : ℕ) → 0x80 ≤ c → All IsHigh (encode_utf8 c)
unfolding encode_utf8
encode-IsHigh c h = elim (Bool-cases (ltb c 0x80)) [
  | inl a ↦ absurd (ground arith)
  | inr a ↦ elim (Bool-cases (ltb c 0x800)) [
    | inl b ↦ rw (a, b) (omega arith)
    | inr b ↦ elim (Bool-cases (ltb c 0x10000)) [
      | inl d ↦ rw (a, b, d) (omega arith)
      | inr d ↦ rw (a, b, d) (omega arith)
    ]
  ]
]

pub encode-low : (c : ℕ) → c < 0x80 → encode_utf8 c ≡ c ∷ []
unfolding encode_utf8
encode-low c h = ground arith

low_or_high : (c : ℕ) → (c < 0x80) ⊎ (0x80 ≤ c)
low_or_high c = grind arith

char_single :
    (e : Escaper) (c : ℕ)
    → escape_char_by SurroundBy.single e c ≡ append e (quote_all SurroundBy.single (encode_utf8 c))
unfolding escape_char_by append escape_char_single write_raw write_raw_char
char_single e c = elim (low_or_high c) [
  | inl l ↦ elim (Bool-cases (c == b'\'')) [
    | inl q ↦ rw (encode-low c l, q) (unfold quote_all in rw q)
    | inr q ↦ rw (encode-low c l, q) (unfold quote_all in rw q)
  ]
  | inr h ↦
      let q : (c == b'\'') ≡ false = ground arith in
      rw (q, quote_all-plain SurroundBy.single (encode_utf8 c) (high-IsPlain _ (encode-IsHigh c h)))
]

char_double :
    (e : Escaper) (c : ℕ)
    → escape_char_by SurroundBy.double e c ≡ append e (quote_all SurroundBy.double (encode_utf8 c))
unfolding escape_char_by append escape_char_double write_raw_char
char_double e c = elim (low_or_high c) [
  | inl l ↦ elim (Bool-cases (is_target c)) [
    | inl t ↦
        rw (encode-low c l, t) (unfold quote_all in rw t (append_twice e (b'\\' ∷ []) (c ∷ [])))
    | inr t ↦ rw (encode-low c l, t) (unfold quote_all in rw t)
  ]
  | inr h ↦
      let t : is_target c ≡ false = ground arith in
      rw (t, quote_all-plain SurroundBy.double (encode_utf8 c) (high-IsPlain _ (encode-IsHigh c h)))
]

escape_char_by-quote :
    (r : SurroundBy) (e : Escaper) (c : ℕ)
    → escape_char_by r e c ≡ append e (quote_all r (encode_utf8 c))
escape_char_by-quote SurroundBy.double = char_double
escape_char_by-quote SurroundBy.single = char_single

-- `escape_char` appends what `escape_str` appends for the UTF-8 text of the one character, whatever
-- the character and the surrounding quotes are.
pub escape_char-eq-escape_str :
    (e : Escaper) (c : ℕ) → escape_char e c ≡ escape_str e (encode_utf8 c)
unfolding escape_char
escape_char-eq-escape_str e c =
    escape_char_by-quote e.surr e c ∙ sym (escape_str-quote_all e (encode_utf8 c))

escape_fmt-quote_all :
    (e : Escaper) (pieces : List Text)
    → escape_fmt e pieces ≡ append e (quote_all e.surr (flatten pieces))
unfolding escape_fmt append quote_all flatten
escape_fmt-quote_all e [] = sym (append_nothing e)
escape_fmt-quote_all e (p ∷ ps) =
    ap (λ e'. escape_fmt e' ps) (escape_str-quote_all e p)
    ∙ escape_fmt-quote_all (append e (quote_all e.surr p)) ps
    ∙ append_twice e (quote_all e.surr p) (quote_all e.surr (flatten ps))
    ∙ ap (append e) (sym (quote_all-append e.surr p (flatten ps)))

-- The pieces that a formatter hands over are escaped as their concatenation is, so it does not
-- matter where the formatter cuts its output.
pub escape_fmt-flatten :
    (e : Escaper) (pieces : List Text) → escape_fmt e pieces ≡ escape_str e (flatten pieces)
escape_fmt-flatten e pieces =
    escape_fmt-quote_all e pieces ∙ sym (escape_str-quote_all e (flatten pieces))
