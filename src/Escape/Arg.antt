-- ===== src/Escape/Arg.antt =====
-- src/process/escape: the trait `Arg`, and its implementations for strings, characters, raw bytes,
-- Booleans, numbers, environment variables, formatted values, tuples and sequences.
use Prim.Native.Nat.{bit_and}
use openrussh_client.Prelude.{
  ℕ, ◌+◌, ◌-◌, ◌/◌, ◌^◌, Text, codes, List, [], ◌∷◌, Bool, true, false, not, ◌&&◌, ◌||◌, ltb, leb,
  ◌==◌, if◌then◌else◌,
}
use openrussh_client.Escape.Number.{Signed, format_into, format_signed}
use openrussh_client.Escape.{
  SurroundBy, Escaper, write_raw, write_raw_char, escape_str, escape_char, escape_fmt,
}

-- `need_double` depends on the type alone; `write` is the method, which returns the escaper.
pub record Arg (A : Type 0) : Type 0 where
  pub need_double : Bool
  pub write : A → Escaper → Escaper

abbrev pub need_double : (A : Type 0) ⦃a : Arg A⦄ → Bool
need_double A ⦃a⦄ = a.need_double

abbrev pub write : {A : Type 0} ⦃a : Arg A⦄ → A → Escaper → Escaper
write ⦃a⦄ = a.write

-- `&str`, `String` and `&String`.
pub record Str : Type 0 where
  pub text : Text

instance abbrev pub str_arg : Arg Str
str_arg = record { need_double = false; write = λ s e. escape_str e s.text }

-- `char` and `&char`.
pub record Char : Type 0 where
  pub code : ℕ

instance abbrev pub char_arg : Arg Char
char_arg = record { need_double = false; write = λ c e. escape_char e c.code }

pub record RawBytes : Type 0 where
  pub bytes : Text

-- A lower-case hexadecimal digit.
unfoldable pub hex_digit : ℕ → ℕ
hex_digit h = if ltb h 0x0a then h + b'0' else h + (b'a' - 0x0a)

abbrev pub quote_char : SurroundBy → ℕ
quote_char SurroundBy.single = b'\''
quote_char SurroundBy.double = b'"'

-- The two writes that leave the `$'…'` encoding.
unfoldable pub leave : ℕ → Escaper → Escaper
unfolding write_raw_char
leave quote e = write_raw_char (write_raw_char e b'\'') quote

unfoldable pub enter : ℕ → Escaper → Escaper
unfolding write_raw_char write_raw
enter quote e = write_raw (write_raw_char e quote) (codes "$'")

unfoldable pub write_hex : Escaper → ℕ → Escaper
unfolding write_raw hex_digit
write_hex e byte =
    write_raw e (b'\\' ∷ b'x' ∷ hex_digit (byte / 2 ^ 4) ∷ hex_digit (bit_and byte 0x0f) ∷ [])

-- One round of the loop, with the flag `encoding`.
unfoldable pub raw_byte : ℕ → ℕ → Escaper × Bool → Escaper × Bool
raw_byte quote byte (e, encoding) =
    if leb 0x20 byte && ltb byte 0x7f
    then (escape_char (if encoding then leave quote e else e) byte, false)
    else if not (byte == 0)
    then (write_hex (if encoding then e else enter quote e) byte, true)
    else (e, encoding)

unfoldable pub raw_loop : ℕ → Text → Escaper × Bool → Escaper × Bool
raw_loop quote [] st = st
raw_loop quote (byte ∷ bytes) st = raw_loop quote bytes (raw_byte quote byte st)

unfoldable pub raw_finish : ℕ → Escaper × Bool → Escaper
raw_finish quote (e, encoding) = if encoding then leave quote e else e

unfoldable pub write_raw_bytes : Text → Escaper → Escaper
write_raw_bytes bytes e =
    raw_finish (quote_char e.surr) (raw_loop (quote_char e.surr) bytes (e, false))

instance abbrev pub raw_bytes_arg : Arg RawBytes
raw_bytes_arg = record { need_double = false; write = λ b e. write_raw_bytes b.bytes e }

instance abbrev pub bool_arg : Arg Bool
bool_arg = record {
  need_double = false;
  write = λ b e. write_raw e (if b then codes "true" else codes "false");
}

-- The unsigned integer types, which print the same digits.
pub record Unsigned : Type 0 where
  pub number : ℕ

instance abbrev pub unsigned_arg : Arg Unsigned
unsigned_arg = record { need_double = false; write = λ n e. write_raw e (format_into n.number) }

instance abbrev pub signed_arg : Arg Signed
signed_arg = record { need_double = false; write = λ n e. write_raw e (format_signed n) }

-- `Env` and `&Env`: a parameter expansion, written without escaping.
pub record Env : Type 0 where
  pub name : Text

unfoldable pub write_env : Text → Escaper → Escaper
unfolding write_raw write_raw_char
write_env name e = write_raw_char (write_raw (write_raw e (codes "${")) name) b'}'

instance abbrev pub env_arg : Arg Env
env_arg = record { need_double = true; write = λ v e. write_env v.name e }

-- `Display` and `&Display`: the pieces are what the value's formatter hands over.
pub record Display : Type 0 where
  pub pieces : List Text

instance abbrev pub display_arg : Arg Display
display_arg = record { need_double = false; write = λ d e. escape_fmt e d.pieces }

-- Tuples: `Only` is the 1-tuple `(T0,)`, and `Cons T0 T` a tuple with one component in front.
pub record Only (A : Type 0) : Type 0 where
  pub component : A

pub record Cons (A B : Type 0) : Type 0 where
  pub component : A
  pub rest : B

instance abbrev pub only_arg : {A : Type 0} ⦃a : Arg A⦄ → Arg (Only A)
only_arg ⦃a⦄ = record { need_double = a.need_double; write = λ t e. a.write t.component e }

instance abbrev pub cons_arg : {A B : Type 0} ⦃a : Arg A⦄ ⦃b : Arg B⦄ → Arg (Cons A B)
cons_arg ⦃a⦄ ⦃b⦄ = record {
  need_double = a.need_double || b.need_double;
  write = λ t e. b.write t.rest (a.write t.component e);
}

-- Slices, vectors, boxed slices and arrays write their items in order.
unfoldable pub write_items : {A : Type 0} → Arg A → List A → Escaper → Escaper
write_items a [] e = e
write_items a (item ∷ items) e = write_items a items (a.write item e)

instance abbrev pub list_arg : {A : Type 0} ⦃a : Arg A⦄ → Arg (List A)
list_arg ⦃a⦄ = record { need_double = a.need_double; write = λ items e. write_items a items e }

-- `Concat` of an iterator: its items in the order in which they are yielded.
pub record Concat (A : Type 0) : Type 0 where
  pub items : List A

instance abbrev pub concat_arg : {A : Type 0} ⦃a : Arg A⦄ → Arg (Concat A)
concat_arg ⦃a⦄ = record { need_double = a.need_double; write = λ c e. write_items a c.items e }
