-- ===== src/Escape/Pieces.antt =====
-- The functions of Rust's `str` and slices that the escaper calls.
use openrussh_client.Prelude.{
  ℕ, zero, suc, Text, List, [], ◌∷◌, Bool, Option, none, some, ◌==◌, if◌then◌else◌,
}

unfoldable pub push_front : ℕ → List Text → List Text
push_front x [] = (x ∷ []) ∷ []
push_front x (segment ∷ it) = (x ∷ segment) ∷ it

-- `str::split(char)`: one segment more than there are separators.
unfoldable pub split : ℕ → Text → List Text
unfolding push_front
split sep [] = [] ∷ []
split sep (x ∷ s) = let it = split sep s in if x == sep then [] ∷ it else push_front x it

-- `str::split_inclusive`: a match ends its segment, and an empty last segment is not yielded.
unfoldable pub split_inclusive : (ℕ → Bool) → Text → List Text
unfolding push_front
split_inclusive p [] = []
split_inclusive p (x ∷ s) =
    let it = split_inclusive p s in if p x then (x ∷ []) ∷ it else push_front x it

unfoldable pub cons_some : ℕ → Option Text → Option Text
cons_some x none = none
cons_some x (some s) = some (x ∷ s)

-- `str::strip_suffix` with a set of characters.
unfoldable pub strip_suffix : (ℕ → Bool) → Text → Option Text
unfolding cons_some
strip_suffix p [] = none
strip_suffix p (x ∷ []) = if p x then some [] else none
strip_suffix p (x ∷ y ∷ s) = cons_some x (strip_suffix p (y ∷ s))

abbrev pub get_elem? {ℓ} : {A : Type ℓ} → List A → ℕ → Option A
get_elem? [] i = none
get_elem? (x ∷ xs) zero = some x
get_elem? (x ∷ xs) (suc i) = get_elem? xs i
