-- ===== src/Escape/Raw.antt =====
-- `RawBytes`: what the shell reads from what its loop writes.
use Prim.Native.Nat.{bit_and}
use openrussh_client.Prelude.{
  holds_below, holds_below-at, ℕ, ◌/◌, ◌%◌, ◌^◌, ◌<◌, Text, [], ◌∷◌, ◌++◌, append_assoc, append-nil,
  ◌≡◌, refl, ap, ◌∙◌, Bool, true, false, some, arith, all, ltb, ◌==◌, ==_iff, if◌then◌else◌,
  Bool-cases, inl, inr,
}
use openrussh_client.Shell.{
  Mode, ansi, ansi_backslash, ansi_hex, ansi_hex_second, step, hex_value, first_digit, second_digit,
}
use openrussh_client.Shell.Run.{Reads, read, Reads-append, Reads-cons}
use openrussh_client.Escape.{SurroundBy}
use openrussh_client.Escape.Bytes.{quote, append}
use openrussh_client.Escape.Arg.{hex_digit, write_raw_bytes, raw_bytes_arg}
use openrussh_client.Escape.Reading.{quoted, Reads-quote, Literal}
use openrussh_client.Escape.RawText.{
  leave_text, enter_text, hex_text, is_printable, byte_text, byte_flag, raw_text,
  write_raw_bytes-append,
}

-- The reader in the loop: inside the surrounding quotes, or inside `$'…'`.
abbrev raw_mode : SurroundBy → Bool → Text → Mode
raw_mode r encoding w = if encoding then ansi w else quoted r w

Reads-leave : (r : SurroundBy) (w : Text) → Reads (ansi w) (leave_text r) [] (quoted r w)
unfolding read step
Reads-leave SurroundBy.single w = refl
Reads-leave SurroundBy.double w = refl

Reads-enter : (r : SurroundBy) (w : Text) → Reads (quoted r w) (enter_text r) [] (ansi w)
unfolding read step
Reads-enter SurroundBy.single w = refl
Reads-enter SurroundBy.double w = refl

hex_value-hex_digit : (h : ℕ) → h < 16 → hex_value (hex_digit h) ≡ some h
unfolding hex_digit hex_value
hex_value-hex_digit h lt = ground arith

low_nibble_table : holds_below (λ b. bit_and b 0x0f == b % 16) 256 ≡ true
unfolding holds_below
low_nibble_table = refl

low_nibble : (b : ℕ) → b < 256 → bit_and b 0x0f ≡ b % 16
low_nibble b h =
    (==_iff (bit_and b 0x0f) (b % 16)).0
      (holds_below-at (λ b. bit_and b 0x0f == b % 16) 256 b h low_nibble_table)

step_hex :
    (w : Text) (b : ℕ)
    → b < 256
    → step (ansi_hex w) (hex_digit (b / 2 ^ 4)) ≡ some ([], ansi_hex_second w (b / 16))
unfolding step
step_hex w b h = ap (first_digit w) (hex_value-hex_digit (b / 2 ^ 4) (omega arith))

step_hex_second :
    (w : Text) (b : ℕ)
    → b < 256
    → step (ansi_hex_second w (b / 16)) (hex_digit (bit_and b 0x0f)) ≡ some ([], ansi (w ++ b ∷ []))
unfolding step
step_hex_second w b h =
    ap (λ (l : ℕ). second_digit w (b / 16) (hex_value (hex_digit l))) (low_nibble b h)
    ∙ ap (second_digit w (b / 16)) (hex_value-hex_digit (b % 16) (omega arith))
    ∙ ap (λ (k : ℕ). some ([], ansi (w ++ k ∷ []))) (omega arith)

Reads-hex : (w : Text) (b : ℕ) → b < 256 → Reads (ansi w) (hex_text b) [] (ansi (w ++ b ∷ []))
unfolding read step
Reads-hex w b h =
    Reads-cons (ansi w) b'\\' (b'x' ∷ hex_digit (b / 2 ^ 4) ∷ hex_digit (bit_and b 0x0f) ∷ []) refl
      (Reads-cons (ansi_backslash w) b'x' (hex_digit (b / 2 ^ 4) ∷ hex_digit (bit_and b 0x0f) ∷ [])
        refl
        (Reads-cons (ansi_hex w) (hex_digit (b / 2 ^ 4)) (hex_digit (bit_and b 0x0f) ∷ [])
          (step_hex w b h)
          (Reads-cons (ansi_hex_second w (b / 16)) (hex_digit (bit_and b 0x0f)) []
            (step_hex_second w b h) refl)))

-- The bytes that an argument keeps: all but NUL.
abbrev pub keep : Text → Text
keep [] = []
keep (b ∷ bs) = if b == 0 then keep bs else b ∷ keep bs

abbrev is_byte : ℕ → Bool
is_byte b = ltb b 256

Reads-printable :
    (r : SurroundBy) (encoding : Bool) (w : Text) (b : ℕ)
    → Reads
        (raw_mode r encoding w)
        ((if encoding then leave_text r else []) ++ quote r b)
        []
        (quoted r (w ++ b ∷ []))
Reads-printable r false w b = Reads-quote r w b
Reads-printable r true w b =
    Reads-append (ansi w) (leave_text r) (quote r b) (Reads-leave r w) (Reads-quote r w b)

Reads-encoded :
    (r : SurroundBy) (encoding : Bool) (w : Text) (b : ℕ)
    → b < 256
    → Reads
        (raw_mode r encoding w)
        ((if encoding then [] else enter_text r) ++ hex_text b)
        []
        (ansi (w ++ b ∷ []))
Reads-encoded r true w b h = Reads-hex w b h
Reads-encoded r false w b h =
    Reads-append (quoted r w) (enter_text r) (hex_text b) (Reads-enter r w) (Reads-hex w b h)

Reads-byte :
    (r : SurroundBy) (encoding : Bool) (w : Text) (b : ℕ)
    → is_byte b ≡ true
    → Reads
        (raw_mode r encoding w)
        (byte_text r encoding b)
        []
        (raw_mode r (byte_flag encoding b) (w ++ (if b == 0 then [] else b ∷ [])))
Reads-byte r encoding w b h = elim (Bool-cases (is_printable b)) [
  | inl p ↦ let z : (b == 0) ≡ false = ground arith in rw (p, z) (Reads-printable r encoding w b)
  | inr p ↦ elim (Bool-cases (b == 0)) [
    | inl z ↦ rw (p, z) (rw (append-nil w) (unfold read in refl))
    | inr z ↦ rw (p, z) (Reads-encoded r encoding w b (ground arith))
  ]
]

keep-cons : (b : ℕ) (bs : Text) → keep (b ∷ bs) ≡ (if b == 0 then [] else b ∷ []) ++ keep bs
keep-cons b bs = ground arith

pub Reads-raw :
    (r : SurroundBy) (encoding : Bool) (w bs : Text)
    → all is_byte bs ≡ true
    → Reads (raw_mode r encoding w) (raw_text r encoding bs) [] (quoted r (w ++ keep bs))
unfolding raw_text
Reads-raw r true w [] h = rw (append-nil w) (Reads-leave r w)
Reads-raw r false w [] h = rw (append-nil w) (unfold read in refl)
Reads-raw r encoding w (b ∷ bs) h =
    rw (keep-cons b bs, ← append_assoc w (if b == 0 then [] else b ∷ []) (keep bs))
      (Reads-append (raw_mode r encoding w) (byte_text r encoding b)
        (raw_text r (byte_flag encoding b) bs) (Reads-byte r encoding w b (ground arith))
        (Reads-raw r (byte_flag encoding b) (w ++ (if b == 0 then [] else b ∷ [])) bs
          (ground arith)))

instance abbrev pub raw_bytes_literal : Literal raw_bytes_arg
raw_bytes_literal = record {
  is_valid = λ x. all (λ b. ltb b 256) x.bytes;
  value = λ x. keep x.bytes;
  output = λ r x. raw_text r false x.bytes;
  writes = λ x e. write_raw_bytes-append x.bytes e;
  reads = λ x r w h. Reads-raw r false w x.bytes h;
}

-- What `RawBytes` writes is read, inside the surrounding quotes and behind any text `w`, as its bytes
-- without the NUL bytes, if each of them is below 256, and the quotes stay open.
pub Reads-write_raw_bytes :
    (r : SurroundBy) (w bs : Text)
    → all (λ b. ltb b 256) bs ≡ true
    → Reads
        (quoted r w)
        (write_raw_bytes bs (record { buf = []; surr = r })).buf
        []
        (quoted r (w ++ keep bs))
unfolding append
Reads-write_raw_bytes r w bs h =
    rw (write_raw_bytes-append bs (record { buf = []; surr = r })) (Reads-raw r false w bs h)
