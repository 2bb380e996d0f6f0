-- ===== src/Escape/RawText.antt =====
-- `RawBytes`: what its loop writes (src/process/escape/str.rs).
use Prim.Native.Nat.{bit_and}
use openrussh_client.Prelude.{
  ℕ, ◌/◌, ◌^◌, ◌<◌, Text, codes, [], ◌∷◌, ◌++◌, append-nil, ◌≡◌, refl, sym, ap, ◌∙◌, Bool, true,
  false, not, ◌&&◌, arith, ltb, leb, ◌==◌, if◌then◌else◌, Bool-cases, inl, inr,
}
use openrussh_client.Escape.{SurroundBy, Escaper, encode_utf8, escape_char}
use openrussh_client.Escape.Bytes.{
  quote, quote_all, append, append_twice, append_nothing, escape_str-quote_all,
}
use openrussh_client.Escape.Chars.{escape_char-eq-escape_str, encode-low}
use openrussh_client.Escape.Arg.{
  quote_char, hex_digit, leave, enter, write_hex, raw_byte, raw_loop, raw_finish, write_raw_bytes,
  raw_bytes_arg,
}

abbrev pub leave_text : SurroundBy → Text
leave_text r = b'\'' ∷ quote_char r ∷ []

abbrev pub enter_text : SurroundBy → Text
enter_text r = quote_char r ∷ codes "$'"

abbrev pub hex_text : ℕ → Text
hex_text b = b'\\' ∷ b'x' ∷ hex_digit (b / 2 ^ 4) ∷ hex_digit (bit_and b 0x0f) ∷ []

abbrev pub is_printable : ℕ → Bool
is_printable b = leb 0x20 b && ltb b 0x7f

-- What is written for the bytes left, and the flag after one byte.
abbrev pub byte_text : SurroundBy → Bool → ℕ → Text
byte_text r encoding b =
    if is_printable b
    then (if encoding then leave_text r else []) ++ quote r b
    else if not (b == 0)
    then (if encoding then [] else enter_text r) ++ hex_text b
    else []

abbrev pub byte_flag : Bool → ℕ → Bool
byte_flag encoding b = if is_printable b then false else if not (b == 0) then true else encoding

unfoldable pub raw_text : SurroundBy → Bool → Text → Text
raw_text r encoding [] = if encoding then leave_text r else []
raw_text r encoding (b ∷ bs) = byte_text r encoding b ++ raw_text r (byte_flag encoding b) bs

leave-append : (r : SurroundBy) (e : Escaper) → leave (quote_char r) e ≡ append e (leave_text r)
unfolding leave encode_utf8 append
leave-append SurroundBy.single e = append_twice e (b'\'' ∷ []) (b'\'' ∷ [])
leave-append SurroundBy.double e = append_twice e (b'\'' ∷ []) (b'"' ∷ [])

enter-append : (r : SurroundBy) (e : Escaper) → enter (quote_char r) e ≡ append e (enter_text r)
unfolding enter encode_utf8 append
enter-append SurroundBy.single e = append_twice e (b'\'' ∷ []) (codes "$'")
enter-append SurroundBy.double e = append_twice e (b'"' ∷ []) (codes "$'")

char-append : (e : Escaper) (b : ℕ) → b < 0x80 → escape_char e b ≡ append e (quote e.surr b)
unfolding quote_all
char-append e b h =
    escape_char-eq-escape_str e b
    ∙ escape_str-quote_all e (encode_utf8 b)
    ∙ rw (encode-low b h, append-nil (quote e.surr b))

printable-append :
    (e : Escaper) (encoding : Bool) (b : ℕ)
    → b < 0x80
    → escape_char (if encoding then leave (quote_char e.surr) e else e) b
      ≡ append e ((if encoding then leave_text e.surr else []) ++ quote e.surr b)
printable-append e false b h = char-append e b h
printable-append e true b h =
    ap (λ e'. escape_char e' b) (leave-append e.surr e)
    ∙ char-append (append e (leave_text e.surr)) b h
    ∙ unfold append in append_twice e (leave_text e.surr) (quote e.surr b)

hex-append :
    (e : Escaper) (encoding : Bool) (b : ℕ)
    → write_hex (if encoding then e else enter (quote_char e.surr) e) b
      ≡ append e ((if encoding then [] else enter_text e.surr) ++ hex_text b)
unfolding write_hex append
hex-append e true b = refl
hex-append e false b =
    ap (λ e'. write_hex e' b) (enter-append e.surr e)
    ∙ append_twice e (enter_text e.surr) (hex_text b)

raw_byte-append :
    (e : Escaper) (encoding : Bool) (b : ℕ)
    → raw_byte (quote_char e.surr) b (e, encoding)
      ≡ (append e (byte_text e.surr encoding b), byte_flag encoding b)
unfolding raw_byte
raw_byte-append e encoding b = elim (Bool-cases (is_printable b)) [
  | inl p ↦ rw p (λ i. (printable-append e encoding b (ground arith) i, false))
  | inr p ↦ elim (Bool-cases (b == 0)) [
    | inl z ↦ rw (p, z) (λ i. (sym (append_nothing e) i, encoding))
    | inr z ↦ rw (p, z) (λ i. (hex-append e encoding b i, true))
  ]
]

raw_loop-append :
    (bs : Text) (e : Escaper) (encoding : Bool)
    → raw_finish (quote_char e.surr) (raw_loop (quote_char e.surr) bs (e, encoding))
      ≡ append e (raw_text e.surr encoding bs)
unfolding raw_finish raw_loop raw_text append
raw_loop-append [] e true = leave-append e.surr e
raw_loop-append [] e false = sym (append_nothing e)
raw_loop-append (b ∷ bs) e encoding =
    ap (λ st. raw_finish (quote_char e.surr) (raw_loop (quote_char e.surr) bs st))
      (raw_byte-append e encoding b)
    ∙ raw_loop-append bs (append e (byte_text e.surr encoding b)) (byte_flag encoding b)
    ∙ append_twice e (byte_text e.surr encoding b) (raw_text e.surr (byte_flag encoding b) bs)

pub write_raw_bytes-append :
    (bs : Text) (e : Escaper) → write_raw_bytes bs e ≡ append e (raw_text e.surr false bs)
unfolding write_raw_bytes
write_raw_bytes-append bs e = raw_loop-append bs e false
