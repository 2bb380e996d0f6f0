-- ===== src/Escape.antt =====
-- src/process/escape/mod.rs: the escaper, which appends to a buffer inside one kind of quotes.
pub mod Pieces
pub mod Bytes
pub mod Chars
pub mod Arg
pub mod Number
pub mod Reading
pub mod RawText
pub mod Raw
pub mod Sequence
mod Tests
use openrussh_client.Prelude.{
  ℕ, suc, ◌+◌, ◌/◌, ◌%◌, ◌^◌, Text, codes, List, [], ◌∷◌, ◌++◌, Bool, true, ◌||◌, Option, none,
  some, length, ltb, ◌==◌, if◌then◌else◌,
}
use openrussh_client.Escape.Pieces.{split, split_inclusive, strip_suffix, get_elem?}

-- The surrounding quotes.
pub data SurroundBy : Type 0 where
  double single : SurroundBy

-- `buf` is borrowed mutably in the source: each method here returns the escaper after the writes.
pub record Escaper : Type 0 where
  pub buf : Text
  pub surr : SurroundBy

-- `char::encode_utf8`: the bytes that `String::push` appends for a scalar value.
unfoldable pub encode_utf8 : ℕ → Text
encode_utf8 c =
    if ltb c 0x80
    then c ∷ []
    else if ltb c 0x800
    then (0xc0 + c / 0x40) ∷ (0x80 + c % 0x40) ∷ []
    else if ltb c 0x10000
    then (0xe0 + c / 0x1000) ∷ (0x80 + c / 0x40 % 0x40) ∷ (0x80 + c % 0x40) ∷ []
    else (0xf0 + c / 0x40000)
      ∷ (0x80 + c / 0x1000 % 0x40)
      ∷ (0x80 + c / 0x40 % 0x40)
      ∷ (0x80 + c % 0x40)
      ∷ []

unfoldable pub write_raw : Escaper → Text → Escaper
write_raw e s = record e { buf = e.buf ++ s }

unfoldable pub write_raw_char : Escaper → ℕ → Escaper
unfolding encode_utf8
write_raw_char e c = record e { buf = e.buf ++ encode_utf8 c }

-- The `for` loop of `escape_str_single` over the segments after the first.
single_loop : Escaper → List Text → Escaper
unfolding write_raw
single_loop e [] = e
single_loop e (segment ∷ it) = single_loop (write_raw (write_raw e (codes "'\\''")) segment) it

single_segments : Escaper → List Text → Escaper
unfolding single_loop
single_segments e [] = e
single_segments e (segment ∷ it) = single_loop (write_raw e segment) it

pub escape_str_single : Escaper → Text → Escaper
unfolding single_segments split
escape_str_single e s = single_segments e (split b'\'' s)

-- `TARGET.contains(&c)`
abbrev pub is_target : ℕ → Bool
is_target c = c == b'\\' || (c == b'$' || (c == b'"' || c == b'`'))

-- `segment.as_bytes()[s.len()] as char`; an index past the end would panic.
write_at : Escaper → Text → ℕ → Escaper
unfolding write_raw_char
write_at e segment i = elim (get_elem? segment i) [ none ↦ e | some b ↦ write_raw_char e b ]

double_segment : Escaper → Text → Option Text → Escaper
unfolding write_raw write_raw_char write_at
double_segment e segment (some s) =
    write_at (write_raw_char (write_raw e s) b'\\') segment (length s)
double_segment e segment none = write_raw e segment

double_loop : Escaper → List Text → Escaper
unfolding double_segment strip_suffix
double_loop e [] = e
double_loop e (segment ∷ it) =
    double_loop (double_segment e segment (strip_suffix is_target segment)) it

pub escape_str_double : Escaper → Text → Escaper
unfolding double_loop split_inclusive
escape_str_double e s = double_loop e (split_inclusive is_target s)

escape_str_by : SurroundBy → Escaper → Text → Escaper
unfolding escape_str_single escape_str_double
escape_str_by SurroundBy.double e s = escape_str_double e s
escape_str_by SurroundBy.single e s = escape_str_single e s

unfoldable pub escape_str : Escaper → Text → Escaper
unfolding escape_str_by
escape_str e s = escape_str_by e.surr e s

pub escape_char_single : Escaper → ℕ → Escaper
unfolding write_raw write_raw_char
escape_char_single e c = if c == b'\'' then write_raw e (codes "'\\''") else write_raw_char e c

pub escape_char_double : Escaper → ℕ → Escaper
unfolding write_raw_char
escape_char_double e c =
    if is_target c then write_raw_char (write_raw_char e b'\\') c else write_raw_char e c

escape_char_by : SurroundBy → Escaper → ℕ → Escaper
unfolding escape_char_single escape_char_double
escape_char_by SurroundBy.double e c = escape_char_double e c
escape_char_by SurroundBy.single e c = escape_char_single e c

unfoldable pub escape_char : Escaper → ℕ → Escaper
unfolding escape_char_by
escape_char e c = escape_char_by e.surr e c

-- `write!(self, "{v}")`: the formatter of `v` hands over its output in pieces, each by `write_str`.
unfoldable pub escape_fmt : Escaper → List Text → Escaper
unfolding escape_str
escape_fmt e [] = e
escape_fmt e (piece ∷ rest) = escape_fmt (escape_str e piece) rest

-- `Escaper::new` and `Escaper::as_raw`
abbrev pub new : Text → SurroundBy → Escaper
new buf surr = record { buf = buf; surr = surr }

abbrev pub as_raw : Escaper → Text
as_raw e = e.buf

-- `fmt::Write for Escaper`: both methods return `Ok(())`, here `true`.
abbrev pub write_str : Escaper → Text → Bool × Escaper
write_str e s = (true, escape_str e s)

abbrev pub write_char : Escaper → ℕ → Bool × Escaper
write_char e c = (true, escape_char e c)
