-- ===== src/Command/Key/Name.antt =====
-- What `helpers::env` keeps of a key: the name at its start.
use openrussh_client.Prelude.{
  holds_below, holds_below-at, ℕ, zero, suc, ◌+◌, ◌≤◌, ◌<◌, ◌≡◌, refl, sym, ap, ◌∙◌, Text, [], ◌∷◌,
  Bool, true, false, ◌&&◌, not, ◌||◌, Option, none, some, length, take, ltb, leb, ◌==◌,
  if◌then◌else◌, all, arith, Bool-cases, inl, inr,
}
use openrussh_client.Escape.Pieces.{get_elem?}
use openrussh_client.Command.Key.{
  is_first, is_rest, position_or_len, boundary_byte, floor_down, floor_char_boundary, valid_key,
}

abbrev pub is_letter : ℕ → Bool
is_letter b = b == b'_' || ((leb b'a' b && leb b b'z') || (leb b'A' b && leb b b'Z'))

abbrev pub is_name_byte : ℕ → Bool
is_name_byte b = is_letter b || (leb b'0' b && leb b b'9')

abbrev pub take_while : (ℕ → Bool) → Text → Text
take_while p [] = []
take_while p (b ∷ bs) = let rest = b ∷ take_while p bs in if p b then rest else []

-- The longest name at the start, `[a-zA-Z_][a-zA-Z0-9_]*`.
abbrev pub name_prefix : Text → Option Text
name_prefix [] = none
name_prefix (b ∷ bs) = if is_letter b then some (b ∷ take_while is_name_byte bs) else none

-- A byte that continues a UTF-8 character.
abbrev pub is_continuation : ℕ → Bool
is_continuation b = leb 0x80 b && ltb b 0xc0

-- What UTF-8 text keeps: bytes, and no continuation behind an ASCII byte.
abbrev pub IsUtf8 : Text → Type 0
IsUtf8 [] = Unit {0}
IsUtf8 (b ∷ []) = b < 256
IsUtf8 (b ∷ c ∷ s) = (b < 256) × (b < 0x80 → is_continuation c ≡ false) × IsUtf8 (c ∷ s)

abbrev same : Bool → Bool → Bool
same true b = b
same false b = not b

same_sound : (a b : Bool) → same a b ≡ true → a ≡ b
same_sound a b h = ground arith

first_table : holds_below (λ b. same (is_first b) (is_letter b)) 256 ≡ true
unfolding holds_below is_first
first_table = refl

rest_table : holds_below (λ b. same (is_rest b) (is_name_byte b)) 256 ≡ true
unfolding holds_below is_rest
rest_table = refl

is_first-is_letter : (b : ℕ) → b < 256 → is_first b ≡ is_letter b
is_first-is_letter b h =
    same_sound _ _ (holds_below-at (λ b. same (is_first b) (is_letter b)) 256 b h first_table)

is_rest-is_name_byte : (b : ℕ) → b < 256 → is_rest b ≡ is_name_byte b
is_rest-is_name_byte b h =
    same_sound _ _ (holds_below-at (λ b. same (is_rest b) (is_name_byte b)) 256 b h rest_table)

head_byte : (b : ℕ) (s : Text) → IsUtf8 (b ∷ s) → b < 256
head_byte b [] h = h
head_byte b (c ∷ s) h = h.0

tail-IsUtf8 : (b : ℕ) (s : Text) → IsUtf8 (b ∷ s) → IsUtf8 s
tail-IsUtf8 b [] h = tt
tail-IsUtf8 b (c ∷ s) h = h.2

abbrev stop : ℕ → Bool
stop b = not (is_rest b)

take-position : (s : Text) → IsUtf8 s → take (position_or_len stop s) s ≡ take_while is_name_byte s
unfolding position_or_len
take-position [] h = refl
take-position (b ∷ s) h =
    ground (arith, is_rest-is_name_byte b (head_byte b s h), take-position s (tail-IsUtf8 b s h))

name_ascii : (b : ℕ) → is_name_byte b ≡ true → b < 0x80
name_ascii b h = ground arith

-- The byte behind the name is no continuation, so the cut is at a boundary.
boundary-position :
    (c : ℕ) (s : Text)
    → c < 0x80
    → IsUtf8 (c ∷ s)
    → boundary_byte (get_elem? s (position_or_len stop s)) ≡ true
unfolding position_or_len boundary_byte
boundary-position c [] lt h = refl
boundary-position c (b ∷ s) lt (_, next, h) = elim (Bool-cases (is_rest b)) [
  | inl n ↦
      rw n (
        boundary-position b s (name_ascii b (sym (is_rest-is_name_byte b (head_byte b s h)) ∙ n)) h)
  | inr n ↦ rw n (ap not (next lt))
]

take-length : (s : Text) (k : ℕ) → length s ≤ k → take (length s) s ≡ take k s
take-length [] zero h = refl
take-length [] (suc k) h = refl
take-length (b ∷ s) zero h = absurd (omega arith)
take-length (b ∷ s) (suc k) h = ap (λ t. b ∷ t) (take-length s k (omega arith))

take-floor :
    (s : Text) (i : ℕ)
    → boundary_byte (get_elem? s (suc i)) ≡ true
    → take (floor_char_boundary s (suc i)) s ≡ take (suc i) s
unfolding floor_char_boundary floor_down
take-floor s i h = elim (Bool-cases (leb (length s) (suc i))) [
  | inl e ↦ rw e (take-length s (suc i) (ground arith))
  | inr e ↦ rw (e, h)
]

letter_ascii : (b : ℕ) → is_letter b ≡ true → b < 0x80
letter_ascii b h = ground arith

cut_at_name :
    (b : ℕ) (s : Text)
    → IsUtf8 (b ∷ s)
    → is_letter b ≡ true
    → take (floor_char_boundary (b ∷ s) (position_or_len stop s + 1)) (b ∷ s)
      ≡ b ∷ take_while is_name_byte s
cut_at_name b s h l =
    let e : position_or_len stop s + 1 ≡ suc (position_or_len stop s) = omega arith in
    rw e (
      take-floor (b ∷ s) (position_or_len stop s) (boundary-position b s (letter_ascii b l) h)
      ∙ ap (λ t. b ∷ t) (take-position s (tail-IsUtf8 b s h)))

-- For a key that is UTF-8 text, the name that `helpers::env` writes is the longest
-- `[a-zA-Z_][a-zA-Z0-9_]*` at the start of the key, and the assignment is dropped exactly if there
-- is none: the bit tricks and the search for a character boundary change nothing.
pub valid_key-name_prefix : (key : Text) → IsUtf8 key → valid_key key ≡ name_prefix key
unfolding valid_key
valid_key-name_prefix [] h = refl
valid_key-name_prefix (b ∷ s) h = elim (Bool-cases (is_letter b)) [
  | inl l ↦ rw (is_first-is_letter b (head_byte b s h), l) (ap some (cut_at_name b s h l))
  | inr l ↦ rw (is_first-is_letter b (head_byte b s h), l)
]

-- ASCII text is UTF-8 text.
pub ascii-IsUtf8 : (s : Text) → all (λ b. ltb b 0x80) s ≡ true → IsUtf8 s
ascii-IsUtf8 [] h = tt
ascii-IsUtf8 (b ∷ []) h = ground arith
ascii-IsUtf8 (b ∷ c ∷ s) h =
    (ground arith, (λ _. ground arith), ascii-IsUtf8 (c ∷ s) (ground arith))
