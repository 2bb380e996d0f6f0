-- ===== src/Command/Key.antt =====
-- The check of a variable's name in `helpers::env` (src/process/mod.rs).
pub mod Name
use Prim.Native.Nat.{bit_or}
use openrussh_client.Prelude.{
  ℕ, zero, suc, ◌+◌, ◌-◌, ◌%◌, Text, List, [], ◌∷◌, Bool, true, false, ◌&&◌, not, ◌||◌, Option,
  none, some, length, take, ltb, leb, ◌==◌, if◌then◌else◌,
}
use openrussh_client.Escape.Pieces.{get_elem?}

-- `b.wrapping_sub(k)` on `u8`.
abbrev pub wrapping_sub : ℕ → ℕ → ℕ
wrapping_sub b k = (b + 256 - k) % 256

unfoldable pub is_first : ℕ → Bool
is_first b = b == b'_' || ltb (wrapping_sub (bit_or b 0x20) b'a') 26

unfoldable pub is_rest : ℕ → Bool
is_rest b =
    b == b'_' || (ltb (wrapping_sub (bit_or b 0x20) b'a') 26 || ltb (wrapping_sub b b'0') 10)

-- `rest.iter().position(|b| !…).unwrap_or(rest.len())`
unfoldable pub position_or_len : (ℕ → Bool) → Text → ℕ
position_or_len p [] = 0
position_or_len p (b ∷ bs) = let rest = suc (position_or_len p bs) in if p b then 0 else rest

-- `str::is_char_boundary`: the ends, and the bytes that do not continue a character.
boundary_byte : Option ℕ → Bool
boundary_byte none = true
boundary_byte (some b) = not (leb 0x80 b && ltb b 0xc0)

-- `str::floor_char_boundary`: the last boundary at or below the index.
floor_down : Text → ℕ → ℕ
unfolding boundary_byte
floor_down s zero = zero
floor_down s (suc i) =
    let lower = floor_down s i in if boundary_byte (get_elem? s (suc i)) then suc i else lower

unfoldable pub floor_char_boundary : Text → ℕ → ℕ
unfolding floor_down
floor_char_boundary s i = if leb (length s) i then length s else floor_down s i

-- What `helpers::env` writes of the key, or `none` where it returns at once.
unfoldable pub valid_key : Text → Option Text
unfolding is_first is_rest position_or_len floor_char_boundary
valid_key [] = none
valid_key (first ∷ rest) =
    if not (is_first first)
    then none
    else some (
        take (floor_char_boundary (first ∷ rest) (position_or_len (λ b. not (is_rest b)) rest + 1))
          (first ∷ rest))
