-- ===== src/Config/Paths.antt =====
-- `expand_tilde` and `parse_agent` in `parse_auth` (src/config.rs), on Unix paths.
pub mod Expanded
use openrussh_client.Prelude.{
  ℕ, Text, codes, [], ◌∷◌, ◌++◌, Bool, false, ◌&&◌, ◌||◌, Option, none, some, text_eq, ◌==◌,
  if◌then◌else◌,
}

-- The process's environment: `whoami::username()`, `none` where it fails, `std::env::home_dir()` and
-- `std::env::var_os`.
pub record Env : Type 0 where
  pub username : Option Text
  pub home_dir : Option Text
  pub var_os : Text → Option Text

-- The first segment of a path and what comes behind its separator.
abbrev cut : ℕ → Text × Text → Text × Text
cut x (a, b) = (x ∷ a, b)

unfoldable pub segment : Text → Text × Text
segment [] = ([], [])
segment (x ∷ s) = let rest = cut x (segment s) in if x == b'/' then ([], s) else rest

-- `std::path::Component`, as far as the code tells them apart: `other` is a root, `.` or `..`.
pub data Component : Type 0 where
  normal : Text → Component
  other : Component

-- The first of `components()`, with the text behind it.
unfoldable pub first_component : Text → Option (Component × Text)
unfolding segment
first_component [] = none
first_component (x ∷ s) =
    let (seg, rest) = segment (x ∷ s) in
    if text_eq seg [] || (text_eq seg (codes ".") || text_eq seg (codes ".."))
    then some (other, rest)
    else some (normal seg, rest)

-- Without the separators and `.` segments in front.
trim_dots : Text → Text
trim_dots [] = []
trim_dots (x ∷ []) = if x == b'/' || x == b'.' then [] else x ∷ []
trim_dots (x ∷ y ∷ s) =
    let next = trim_dots (y ∷ s) in
    if x == b'/' || (x == b'.' && y == b'/') then next else x ∷ y ∷ s

text_rev : Text → Text
text_rev [] = []
text_rev (x ∷ s) = text_rev s ++ x ∷ []

-- `Components::as_path` of what is left: without the separators and `.` segments at its ends.
unfoldable pub as_path : Text → Text
unfolding trim_dots text_rev
as_path s = text_rev (trim_dots (text_rev (trim_dots s)))

ends_with_slash : Text → Bool
ends_with_slash [] = false
ends_with_slash (x ∷ []) = x == b'/'
ends_with_slash (x ∷ y ∷ s) = ends_with_slash (y ∷ s)

-- `PathBuf::push` of a relative path: a separator is added but behind a separator or on an empty path.
unfoldable pub push_path : Text → Text → Text
unfolding ends_with_slash
push_path [] rest = rest
push_path (x ∷ home) rest =
    if ends_with_slash (x ∷ home) then (x ∷ home) ++ rest else (x ∷ home) ++ (codes "/" ++ rest)

module _ (env : Env) where
  abbrev pub in_home_of : Option Text → Text → Option Text
  in_home_of none rest = none
  in_home_of (some home) rest = some (push_path home (as_path rest))

  abbrev pub is_me : Option Text → Text → Bool
  is_me none user = false
  is_me (some me) user = text_eq user me

  abbrev expand_normal : Text → Text → Text → Option Text
  expand_normal path [] rest = none
  expand_normal path (c ∷ user) rest =
      if c == b'~'
      then if text_eq user [] || is_me env.username user then in_home_of env.home_dir rest else none
      else some path

  abbrev pub expand_first : Text → Option (Component × Text) → Option Text
  expand_first path none = none
  expand_first path (some (other, rest)) = some path
  expand_first path (some (normal first, rest)) = expand_normal path first rest

  unfoldable pub expand_tilde : Text → Option Text
  unfolding first_component as_path push_path
  expand_tilde path = expand_first path (first_component path)

  abbrev pub expand_some : Option Text → Option Text
  expand_some none = none
  expand_some (some value) = expand_tilde value

  unfoldable pub agent_from_env : Text → Option Text
  unfolding expand_tilde
  agent_from_env key = expand_some (env.var_os key)

  abbrev pub agent_value : Text → Option Text
  agent_value [] = expand_tilde []
  agent_value (c ∷ key) = if c == b'$' then agent_from_env key else expand_tilde (c ∷ key)

  unfoldable pub parse_agent : Text → Option Text
  unfolding expand_tilde agent_from_env
  parse_agent value =
      if text_eq value (codes "none")
      then none
      else if text_eq value (codes "SSH_AUTH_SOCK")
      then agent_from_env (codes "SSH_AUTH_SOCK")
      else agent_value value
