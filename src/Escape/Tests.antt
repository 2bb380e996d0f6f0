-- ===== src/Escape/Tests.antt =====
-- Runs of the escaper on the inputs of the source's tests, and instances of the theorems.
use openrussh_client.Prelude.{codes, [], ◌∷◌, ◌≡◌, refl, true}
use openrussh_client.Shell.Run.{Reads}
use openrussh_client.Escape.{SurroundBy, Escaper, encode_utf8, escape_str, escape_char}
use openrussh_client.Escape.Arg.{
  need_double, write, Str, Env, Only, Cons, str_arg, env_arg, only_arg, cons_arg, write_env,
  write_raw_bytes, raw_loop, raw_byte, raw_finish, leave, enter, write_hex,
}
use openrussh_client.Escape.Number.{Signed, format_into, format_signed}
use openrussh_client.Escape.Chars.{escape_char-eq-escape_str}
use openrussh_client.Escape.Reading.{quoted, Reads-escape_str}
use openrussh_client.Escape.Raw.{Reads-write_raw_bytes}

abbrev single_escaper : Escaper
single_escaper = record { buf = []; surr = SurroundBy.single }

abbrev double_escaper : Escaper
double_escaper = record { buf = []; surr = SurroundBy.double }

escape_single : (escape_str single_escaper (codes "''abcd")).buf ≡ codes "'\\'''\\''abcd"
unfolding escape_str
escape_single = refl

escape_double : (escape_str double_escaper (codes "\"a$b\\`")).buf ≡ codes "\\\"a\\$b\\\\\\`"
unfolding escape_str
escape_double = refl

raw_tests :
    ((write_raw_bytes (9 ∷ 10 ∷ 13 ∷ []) single_escaper).buf ≡ codes "'$'\\x09\\x0a\\x0d''")
    × ((write_raw_bytes (b'a' ∷ 255 ∷ b'\'' ∷ b'f' ∷ 10 ∷ []) single_escaper).buf
        ≡ codes "a'$'\\xff'''\\''f'$'\\x0a''")
    × ((write_raw_bytes (227 ∷ 0 ∷ b'a' ∷ []) single_escaper).buf ≡ codes "'$'\\xe3''a")
unfolding write_raw_bytes raw_loop raw_byte raw_finish leave enter write_hex escape_char
raw_tests = (refl, refl, refl)

number_tests :
    (format_into 0 ≡ codes "0")
    × (format_signed (Signed.nonnegative 1000) ≡ codes "1000")
    × (format_signed (Signed.negative 999) ≡ codes "-1000")
unfolding format_into format_signed
number_tests = (refl, refl, refl)

abbrev mixed : Cons Str (Cons Env (Only Str))
mixed = record {
  component = record { text = codes "ab'c" };
  rest = record {
    component = record { name = codes "abc" };
    rest = record { component = record { text = codes "de$f" } };
  };
}

tuple_test :
    (need_double (Cons Str (Cons Env (Only Str))) ≡ true)
    × ((write mixed double_escaper).buf ≡ codes "ab'c${abc}de\\$f")
unfolding write_env escape_str
tuple_test = (refl, refl)

escape_char-eq-escape_str_example :
    escape_char single_escaper 0x3042 ≡ escape_str single_escaper (encode_utf8 0x3042)
escape_char-eq-escape_str_example = escape_char-eq-escape_str single_escaper 0x3042

Reads-escape_str_example :
    Reads
      (quoted SurroundBy.single (codes "w"))
      (escape_str single_escaper (codes "don't")).buf
      []
      (quoted SurroundBy.single (codes "wdon't"))
Reads-escape_str_example = Reads-escape_str SurroundBy.single (codes "w") (codes "don't")

Reads-write_raw_bytes_example :
    Reads
      (quoted SurroundBy.double [])
      (write_raw_bytes (b'a' ∷ 0 ∷ 255 ∷ []) double_escaper).buf
      []
      (quoted SurroundBy.double (b'a' ∷ 255 ∷ []))
Reads-write_raw_bytes_example =
    Reads-write_raw_bytes SurroundBy.double [] (b'a' ∷ 0 ∷ 255 ∷ []) refl
