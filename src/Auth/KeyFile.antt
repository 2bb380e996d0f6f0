-- ===== src/Auth/KeyFile.antt =====
-- `check_pub_or_priv` (src/auth.rs): whether a key file looks public or private.
pub mod Search
pub mod Kind
use openrussh_client.Prelude.{
  Text, codes, List, [], ◌∷◌, Bool, true, false, ◌||◌, Option, none, some, text_eq, ◌==◌,
  if◌then◌else◌,
}
use openrussh_client.Escape.Pieces.{split}

pub data KeyType : Type 0 where
  maybe_public maybe_private key_error : KeyType

-- The file system: `File::open` and `read_exact` into 40 bytes, `none` where one of them fails.
pub record Files : Type 0 where
  pub read_40 : Text → Option Text

-- The last component of a path that is neither empty nor `.`.
abbrev last_component : Option Text → List Text → Option Text
last_component last [] = last
last_component last (c ∷ cs) =
    let skip = last_component last cs in
    let take = last_component (some c) cs in
    if text_eq c [] || text_eq c (codes ".") then skip else take

-- `Path::file_name`, which is there if the last component is not `..`.
unfoldable pub file_name : Text → Option Text
unfolding split
file_name path = elim (last_component none (split b'/' path)) [
  | none ↦ none
  | some c ↦ if text_eq c (codes "..") then none else some c
]

-- The text before and behind the last `.`.
unfoldable pub rsplit_dot : Text → Option (Text × Text)
rsplit_dot [] = none
rsplit_dot (x ∷ s) = elim (rsplit_dot s) [
  | some (a, b) ↦ some (x ∷ a, b)
  | none ↦ if x == b'.' then some ([], s) else none
]

-- `Path::extension`: a name that only begins with its last dot has none.
unfoldable pub extension : Text → Option Text
unfolding file_name rsplit_dot
extension path = elim (file_name path) [
  | none ↦ none
  | some name ↦ elim (rsplit_dot name) [
    | none ↦ none
    | some (before, after) ↦ if text_eq before [] then none else some after
  ]
]

unfoldable pub strip_prefix : Text → Text → Option Text
strip_prefix [] s = some s
strip_prefix (c ∷ p) [] = none
strip_prefix (c ∷ p) (x ∷ s) = if c == x then strip_prefix p s else none

abbrev is_there {ℓ} : {A : Type ℓ} → Option A → Bool
is_there none = false
is_there (some a) = true

-- `windows(needle.len()).any(|win| win == needle)`, for a needle that is not empty.
unfoldable pub contains : Text → Text → Bool
unfolding strip_prefix
contains needle [] = false
contains needle (x ∷ s) = is_there (strip_prefix needle (x ∷ s)) || contains needle s

-- The look at the first 40 bytes.
unfoldable pub looks_like : Text → KeyType
unfolding strip_prefix contains
looks_like buf = elim (strip_prefix (codes "-----BEGIN ") buf) [
  | none ↦ maybe_public
  | some rest ↦
      if is_there (strip_prefix (codes "PUBLIC") rest)
      then maybe_public
      else if contains (codes "PRIVATE") rest
      then maybe_private
      else key_error
]

abbrev pub unwrap_or_error : Option Text → KeyType
unwrap_or_error none = key_error
unwrap_or_error (some buf) = looks_like buf

unfoldable pub check_pub_or_priv : Files → Text → KeyType
unfolding extension looks_like
check_pub_or_priv files path =
    let read = unwrap_or_error (files.read_40 path) in
    elim (extension path) [
      | none ↦ read
      | some ext ↦ if text_eq ext (codes "pub") then maybe_public else read
    ]
