-- ===== src/KnownHosts/Files.antt =====
-- Reading a known_hosts file (src/known_hosts.rs).
use openrussh_client.Prelude.{
  Text, codes, List, [], ◌∷◌, Option, none, some, Result, ok, err, M, pure, ◌>>=◌,
}
use openrussh_client.Config.Paths.{push_path}
use openrussh_client.KnownHosts.Handler.{Entry, KnownHosts, new}

-- What the standard library and ssh_key give: the text of a file, the home directory, and the lines
-- of a text, with an error `X` for one that is no entry.
pub record Reader (S I X : Type 0) : Type 0 where
  pub read_to_string : Text → M S I Text
  pub home_dir : Option Text
  pub entries : Text → List (Result X Entry)

-- `filter_map(|entry| entry.ok())`
abbrev pub oks : {X : Type 0} → List (Result X Entry) → List Entry
oks [] = []
oks (ok e ∷ rs) = e ∷ oks rs
oks (err x ∷ rs) = oks rs

module _ {S I X : Type 0} (reader : Reader S I X) where
  -- `KnownHosts::parse`
  unfoldable pub parse : Text → KnownHosts
  parse known_hosts = new (oks (reader.entries known_hosts))

  -- `KnownHosts::parse_path`
  unfoldable pub parse_path : Text → M S I KnownHosts
  unfolding parse
  parse_path path = do known_hosts ← reader.read_to_string path; pure (parse known_hosts)

  abbrev default_path : Option Text → Text
  default_path none = codes "/etc/ssh/ssh_known_hosts"
  default_path (some home) = push_path home (codes ".ssh/known_hosts")

  -- `KnownHosts::parse_default_path`
  unfoldable pub parse_default_path : M S I KnownHosts
  unfolding parse_path
  parse_default_path = parse_path (default_path reader.home_dir)
