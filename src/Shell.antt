-- ===== src/Shell.antt =====
-- How a POSIX shell cuts a command line into tokens and removes the quotes (XCU 2.2 and 2.3, and
-- `$'…'` with `\xHH` as bash reads it). This is the specification that the escaping of
-- src/process is held to; it stands for no code of the repository. A text that would be expanded
-- (`$`, a backquote, an unquoted pattern, `~`, a brace or a comment) has no reading here.
pub mod Run
pub mod Grammar
use openrussh_client.Prelude.{
  ℕ, ◌+◌, ◌-◌, ◌*◌, Text, codes, List, [], ◌∷◌, ◌++◌, Bool, true, false, ◌&&◌, ◌||◌, Option, none,
  some, leb, all, text_eq, ◌==◌, if◌then◌else◌,
}

pub data Token : Type 0 where
  word : Text → Token
  -- The file descriptor in front of a redirection.
  io_number : Text → Token
  op : Text → Token

-- Where the reader stands, with the text of the token so far. `unquoted q w` is in a word outside
-- quotes, and `q` says that a part of it was quoted.
pub data Mode : Type 0 where
  between : Mode
  operator : Text → Mode
  unquoted : Bool → Text → Mode
  backslash : Text → Mode
  single : Text → Mode
  double : Text → Mode
  double_backslash : Text → Mode
  dollar : Text → Mode
  ansi : Text → Mode
  ansi_backslash : Text → Mode
  ansi_hex : Text → Mode
  ansi_hex_second : Text → ℕ → Mode

-- A step reads one byte: the tokens that it ends, and where the reader stands after it.
abbrev pub Reading : Type 0
Reading = Option (List Token × Mode)

abbrev pub is_blank : ℕ → Bool
is_blank c = c == b' ' || c == b'\t'

abbrev pub is_redirect : ℕ → Bool
is_redirect c = c == b'<' || c == b'>'

abbrev pub is_operator : ℕ → Bool
is_operator c =
    c == b';' || (c == b'&' || (c == b'|' || (c == b'(' || (c == b')' || is_redirect c))))

-- Unquoted bytes that start an expansion, a pattern or a comment.
abbrev pub is_expanded : ℕ → Bool
is_expanded c =
    c == b'`'
    || (c == b'*'
        || (c == b'?' || (c == b'[' || (c == b'~' || (c == b'{' || (c == b'}' || c == b'#'))))))

-- The operators of more than one byte.
abbrev pub continues : Text → ℕ → Bool
continues (c ∷ []) d =
    text_eq (c ∷ d ∷ []) (codes "&&")
    || (text_eq (c ∷ d ∷ []) (codes "||")
        || (text_eq (c ∷ d ∷ []) (codes ">>")
            || (text_eq (c ∷ d ∷ []) (codes "<>")
                || (text_eq (c ∷ d ∷ []) (codes ">&") || text_eq (c ∷ d ∷ []) (codes "<&")))))
continues _ d = false

abbrev pub is_digit : ℕ → Bool
is_digit c = leb b'0' c && leb c b'9'

unfoldable pub hex_value : ℕ → Option ℕ
hex_value c =
    if is_digit c
    then some (c - b'0')
    else if leb b'a' c && leb c b'f'
    then some (c - b'a' + 10)
    else if leb b'A' c && leb c b'F'
    then some (c - b'A' + 10)
    else none

-- A byte between two tokens.
unfoldable pub start : ℕ → Reading
start c =
    if is_blank c
    then some ([], between)
    else if c == b'\n'
    then some (op (c ∷ []) ∷ [], between)
    else if c == b'\''
    then some ([], single [])
    else if c == b'"'
    then some ([], double [])
    else if c == b'\\'
    then some ([], backslash [])
    else if c == b'$'
    then some ([], dollar [])
    else if is_operator c
    then some ([], operator (c ∷ []))
    else if is_expanded c
    then none
    else some ([], unquoted false (c ∷ []))

-- A byte in a word, outside quotes.
unfoldable pub inside : Bool → Text → ℕ → Reading
inside q w c =
    if is_blank c
    then some (word w ∷ [], between)
    else if c == b'\n'
    then some (word w ∷ op (c ∷ []) ∷ [], between)
    else if c == b'\''
    then some ([], single w)
    else if c == b'"'
    then some ([], double w)
    else if c == b'\\'
    then some ([], backslash w)
    else if c == b'$'
    then some ([], dollar w)
    else if is_redirect c
    then some (
      (if q then word w else if all is_digit w then io_number w else word w) ∷ [],
      operator (c ∷ []),
    )
    else if is_operator c
    then some (word w ∷ [], operator (c ∷ []))
    else if is_expanded c
    then none
    else some ([], unquoted q (w ++ c ∷ []))

after_operator : Text → Reading → Reading
after_operator o none = none
after_operator o (some (ts, m)) = some (op o ∷ ts, m)

unfoldable pub first_digit : Text → Option ℕ → Reading
first_digit w none = none
first_digit w (some h) = some ([], ansi_hex_second w h)

unfoldable pub second_digit : Text → ℕ → Option ℕ → Reading
second_digit w h none = none
second_digit w h (some l) = some ([], ansi (w ++ (h * 16 + l) ∷ []))

unfoldable pub step : Mode → ℕ → Reading
unfolding start inside after_operator hex_value first_digit second_digit
step between c = start c
step (operator o) c =
    if continues o c then some ([], operator (o ++ c ∷ [])) else after_operator o (start c)
step (unquoted q w) c = inside q w c
step (backslash w) c = if c == b'\n' then none else some ([], unquoted true (w ++ c ∷ []))
step (single w) c =
    if c == b'\'' then some ([], unquoted true w) else some ([], single (w ++ c ∷ []))
step (double w) c =
    if c == b'"'
    then some ([], unquoted true w)
    else if c == b'\\'
    then some ([], double_backslash w)
    else if c == b'$' || c == b'`'
    then none
    else some ([], double (w ++ c ∷ []))
step (double_backslash w) c =
    if c == b'\n'
    then some ([], double w)
    else if c == b'$' || (c == b'`' || (c == b'"' || c == b'\\'))
    then some ([], double (w ++ c ∷ []))
    else some ([], double (w ++ b'\\' ∷ c ∷ []))
step (dollar w) c = if c == b'\'' then some ([], ansi w) else none
step (ansi w) c =
    if c == b'\''
    then some ([], unquoted true w)
    else if c == b'\\'
    then some ([], ansi_backslash w)
    else some ([], ansi (w ++ c ∷ []))
step (ansi_backslash w) c = if c == b'x' then some ([], ansi_hex w) else none
step (ansi_hex w) c = first_digit w (hex_value c)
step (ansi_hex_second w h) c = second_digit w h (hex_value c)
