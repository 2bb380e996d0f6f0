-- ===== src/Escape/Bytes.antt =====
-- What the escaper appends, byte by byte: `escape_str` cuts its text into segments, and writes the
-- text with a prefix or a replacement at each special byte.
use openrussh_client.Prelude.{
  ℕ, All, Text, codes, List, [], ◌∷◌, ◌++◌, append_assoc, append-nil, ◌≡◌, ◌≢◌, refl, sym, ap, ◌∙◌,
  true, false, Option, none, some, arith, length, ◌==◌, if◌then◌else◌, Bool-cases, inl, inr,
}
use openrussh_client.Escape.{
  SurroundBy, Escaper, encode_utf8, write_raw, single_loop, single_segments, escape_str_single,
  escape_str_double, is_target, write_at, double_segment, double_loop, escape_str, escape_str_by,
}
use openrussh_client.Escape.Pieces.{push_front, split, split_inclusive, strip_suffix, cons_some}

-- A single quote closes the quotes, is written with a backslash, and opens them again.
abbrev pub quote_single : ℕ → Text
quote_single c = if c == b'\'' then codes "'\\''" else c ∷ []

abbrev pub quote_double : ℕ → Text
quote_double c = if is_target c then b'\\' ∷ c ∷ [] else c ∷ []

abbrev pub quote : SurroundBy → ℕ → Text
quote SurroundBy.double c = quote_double c
quote SurroundBy.single c = quote_single c

unfoldable pub quote_all : SurroundBy → Text → Text
quote_all r [] = []
quote_all r (c ∷ s) = quote r c ++ quote_all r s

unfoldable pub append : Escaper → Text → Escaper
append e s = record e { buf = e.buf ++ s }

pub append_twice : (e : Escaper) (s t : Text) → append (append e s) t ≡ append e (s ++ t)
unfolding append
append_twice e s t = λ i. record { buf = append_assoc e.buf s t i; surr = e.surr }

pub append_nothing : (e : Escaper) → append e [] ≡ e
unfolding append
append_nothing e = λ i. record { buf = append-nil e.buf i; surr = e.surr }

pub write_raw-append : (e : Escaper) (s : Text) → write_raw e s ≡ append e s
unfolding write_raw append
write_raw-append e s = refl

-- A byte pushed to the first segment is written before it.
single_front :
    (x : ℕ) (e : Escaper) (it : List Text)
    → single_segments e (push_front x it) ≡ single_segments (append e (x ∷ [])) it
unfolding single_segments push_front append
single_front x e [] = refl
single_front x e (s ∷ it) = ap (λ e'. single_loop e' it) (sym (append_twice e (x ∷ []) s))

split-ne-nil : (x : ℕ) (s : Text) → split x s ≢ []
unfolding split push_front
split-ne-nil x [] = cc
split-ne-nil x (y ∷ s) = ground (arith, split-ne-nil x s)

single_skip :
    (e : Escaper) (it : List Text)
    → it ≢ []
    → single_loop e it ≡ single_segments (append e (codes "'\\''")) it
unfolding single_segments append
single_skip e [] h = absurd (h refl)
single_skip e (s ∷ it) h = refl

single_cons :
    (e : Escaper) (x : ℕ) (s : Text)
    → escape_str_single e (x ∷ s) ≡ escape_str_single (append e (quote_single x)) s
unfolding escape_str_single single_segments append
single_cons e x s = elim (Bool-cases (x == b'\'')) [
  | inl q ↦
      rw (q, split)
        (ap (λ e'. single_loop e' (split b'\'' s)) (append_nothing e)
          ∙ single_skip e (split b'\'' s) (split-ne-nil b'\'' s))
  | inr q ↦ rw (q, split) (single_front x e (split b'\'' s))
]

escape_str_single-quote :
    (e : Escaper) (s : Text) → escape_str_single e s ≡ append e (quote_all SurroundBy.single s)
unfolding quote_all
escape_str_single-quote e [] = unfold escape_str_single split single_segments append in refl
escape_str_single-quote e (x ∷ s) =
    single_cons e x s
    ∙ escape_str_single-quote (append e (quote_single x)) s
    ∙ append_twice e (quote_single x) (quote_all SurroundBy.single s)

-- The special bytes are ASCII, so `push` appends the byte itself.
pub encode_target : (x : ℕ) → is_target x ≡ true → encode_utf8 x ≡ x ∷ []
unfolding encode_utf8
encode_target x h = ground arith

-- `split_inclusive` ends a segment at a special byte, which `strip_suffix` then finds there.
double_one :
    (e : Escaper) (x : ℕ)
    → is_target x ≡ true
    → double_segment e (x ∷ []) (strip_suffix is_target (x ∷ [])) ≡ append e (b'\\' ∷ x ∷ [])
unfolding double_segment strip_suffix append
double_one e x h =
    rw (h, encode_target x h)
      (λ i. record {
        buf =
            (ap (λ b. (b ++ b'\\' ∷ []) ++ x ∷ []) (append-nil e.buf)
                ∙ append_assoc e.buf (b'\\' ∷ []) (x ∷ []))
              i;
        surr = e.surr;
      })

double_carry :
    (e : Escaper) (x y : ℕ) (s : Text) (o : Option Text)
    → double_segment e (x ∷ y ∷ s) (cons_some x o) ≡ double_segment (append e (x ∷ [])) (y ∷ s) o
unfolding double_segment cons_some append
double_carry e x y s none = sym (append_twice e (x ∷ []) (y ∷ s))
double_carry e x y s (some t) =
    ap (λ b. write_at (record { buf = b ++ b'\\' ∷ []; surr = e.surr }) (y ∷ s) (length t))
      (sym (append_assoc e.buf (x ∷ []) t))

double_front :
    (x : ℕ) (e : Escaper) (segment : Text)
    → is_target x ≡ false
    → double_segment e (x ∷ segment) (strip_suffix is_target (x ∷ segment))
      ≡ double_segment (append e (x ∷ [])) segment (strip_suffix is_target segment)
unfolding double_segment strip_suffix append
double_front x e [] h = rw h (sym (append_nothing (append e (x ∷ []))))
double_front x e (y ∷ s) h = double_carry e x y s (strip_suffix is_target (y ∷ s))

double_loop_front :
    (x : ℕ) (e : Escaper) (it : List Text)
    → is_target x ≡ false
    → double_loop e (push_front x it) ≡ double_loop (append e (x ∷ [])) it
unfolding double_loop push_front append
double_loop_front x e [] h =
    double_front x e [] h ∙ unfold double_segment in append_nothing (append e (x ∷ []))
double_loop_front x e (s ∷ it) h = ap (λ e'. double_loop e' it) (double_front x e s h)

double_cons :
    (e : Escaper) (x : ℕ) (s : Text)
    → escape_str_double e (x ∷ s) ≡ escape_str_double (append e (quote_double x)) s
unfolding escape_str_double
double_cons e x s = elim (Bool-cases (is_target x)) [
  | inl t ↦
      rw (t, split_inclusive)
        (ap (λ e'. double_loop e' (split_inclusive is_target s)) (double_one e x t))
  | inr t ↦ rw (t, split_inclusive) (double_loop_front x e (split_inclusive is_target s) t)
]

escape_str_double-quote :
    (e : Escaper) (s : Text) → escape_str_double e s ≡ append e (quote_all SurroundBy.double s)
unfolding quote_all
escape_str_double-quote e [] =
    sym (unfold escape_str_double split_inclusive double_loop append in append_nothing e)
escape_str_double-quote e (x ∷ s) =
    double_cons e x s
    ∙ escape_str_double-quote (append e (quote_double x)) s
    ∙ append_twice e (quote_double x) (quote_all SurroundBy.double s)

escape_str_by-quote :
    (r : SurroundBy) (e : Escaper) (s : Text) → escape_str_by r e s ≡ append e (quote_all r s)
unfolding escape_str_by
escape_str_by-quote SurroundBy.double e s = escape_str_double-quote e s
escape_str_by-quote SurroundBy.single e s = escape_str_single-quote e s

-- `escape_str` appends, for each byte in order, the byte itself, or its quoted form if it is special
-- inside the surrounding quotes, and keeps the kind of quotes.
pub escape_str-quote_all : (e : Escaper) (s : Text) → escape_str e s ≡ append e (quote_all e.surr s)
unfolding escape_str
escape_str-quote_all e s = escape_str_by-quote e.surr e s

pub quote_all-append :
    (r : SurroundBy) (s t : Text) → quote_all r (s ++ t) ≡ quote_all r s ++ quote_all r t
unfolding quote_all
quote_all-append r [] t = refl
quote_all-append r (x ∷ s) t = simp (quote_all-append r s t, append_assoc)

-- A byte that no quotes treat specially.
abbrev pub IsPlain : ℕ → Type 0
IsPlain c = (is_target c ≡ false) × ((c == b'\'') ≡ false)

quote-plain : (r : SurroundBy) (c : ℕ) → IsPlain c → quote r c ≡ c ∷ []
quote-plain SurroundBy.double c (d, s) = rw d
quote-plain SurroundBy.single c (d, s) = rw s

pub quote_all-plain : (r : SurroundBy) (s : Text) → All IsPlain s → quote_all r s ≡ s
unfolding quote_all
quote_all-plain r [] h = refl
quote_all-plain r (c ∷ s) (p, h) = rw (quote-plain r c p, quote_all-plain r s h)
