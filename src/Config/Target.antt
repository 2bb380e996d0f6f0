-- ===== src/Config/Target.antt =====
-- `Target::parse` (src/config.rs).
pub mod Printed
use openrussh_client.Prelude.{
  ℕ, ◌+◌, ◌-◌, ◌*◌, Text, codes, List, [], ◌∷◌, ◌++◌, Bool, true, false, ◌&&◌, not, Option, none,
  some, ltb, leb, ◌==◌, if◌then◌else◌, ◌≡◌, refl, ◌<◌, arith, All, sym, ap, ◌∙◌, Bool-cases, inl,
  inr,
}
use openrussh_client.Escape.Number.{format_into, value, IsDigit, format_into_lem}

pub record Target : Type 0 where
  pub host : Text
  pub port : Option ℕ
  pub user : Option Text

abbrev pub push_first : ℕ → Option (Text × Text) → Option (Text × Text)
push_first x none = none
push_first x (some (a, b)) = some (x ∷ a, b)

-- `split_once(char)`
unfoldable pub split_once : ℕ → Text → Option (Text × Text)
split_once sep [] = none
split_once sep (x ∷ s) =
    let rest = push_first x (split_once sep s) in if x == sep then some ([], s) else rest

abbrev pub or_here : ℕ → ℕ → Text → Option (Text × Text) → Option (Text × Text)
or_here sep x s (some (a, b)) = some (x ∷ a, b)
or_here sep x s none = if x == sep then some ([], s) else none

-- `rsplit_once(char)`
unfoldable pub rsplit_once : ℕ → Text → Option (Text × Text)
rsplit_once sep [] = none
rsplit_once sep (x ∷ s) = or_here sep x s (rsplit_once sep s)

abbrev pub is_digit : ℕ → Bool
is_digit c = leb b'0' c && leb c b'9'

-- The digits of `u16::from_str`, `none` on another byte or above the range.
unfoldable pub digits_u16 : ℕ → Text → Option ℕ
digits_u16 acc [] = some acc
digits_u16 acc (c ∷ s) =
    let n = acc * 10 + (c - b'0') in
    let rest = digits_u16 n s in if is_digit c && ltb n 65536 then rest else none

-- `u16::from_str`: a `+` may come first, and there is a digit.
unfoldable pub parse_u16 : Text → Option ℕ
unfolding digits_u16
parse_u16 [] = none
parse_u16 (c ∷ []) = digits_u16 0 (c ∷ [])
parse_u16 (c ∷ d ∷ s) = if c == b'+' then digits_u16 0 (d ∷ s) else digits_u16 0 (c ∷ d ∷ s)

abbrev pub parse_port : Option Text → Option ℕ
parse_port none = none
parse_port (some p) = parse_u16 p

abbrev pub with_user : Text → Option (Text × Text) → Option Text × Text
with_user query none = (none, query)
with_user query (some (user, rest)) = (some user, rest)

abbrev pub with_port : Option Text → Text → Option (Text × Text) → Target
with_port user rest none = record { host = rest; port = none; user = user }
with_port user rest (some (host, port)) = record {
  host = host;
  port = parse_port (some port);
  user = user;
}

abbrev pub parse_rest : Option Text × Text → Target
parse_rest (user, rest) = with_port user rest (rsplit_once b':' rest)

unfoldable pub parse : Text → Target
unfolding split_once rsplit_once parse_u16
parse query = parse_rest (with_user query (split_once b'@' query))
