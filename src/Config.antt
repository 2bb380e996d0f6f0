-- ===== src/Config.antt =====
-- The configuration of a host and of the chain of `ProxyJump`s to it (src/config.rs).
pub mod Target
pub mod Paths
pub mod Parsers
pub mod Route
mod Tests
use openrussh_client.Prelude.{
  rev, ℕ, zero, suc, ◌+◌, Text, List, [], ◌∷◌, ◌++◌, Bool, true, false, Option, none, some, length,
}
use openrussh_client.Auth.{AuthConfig}

pub record Dest : Type 0 where
  pub name : Text
  pub port : ℕ
  pub user : Text

pub data RequestTty : Type 0 where
  never always if_tty for_shell : RequestTty

pub record Host : Type 0 where
  pub dest : Dest
  pub auth : AuthConfig
  pub tty : RequestTty

pub record Chain : Type 0 where
  pub target : Host
  pub bastions : Option (List Host)

pub record BastionItem : Type 0 where
  pub from : Host
  pub to : Host

-- `bastions` are the windows that the reversed iterator has not given yet.
pub record BastionIter : Type 0 where
  pub final_target : Option BastionItem
  pub bastions : List (Host × Host)

-- `slice::windows(2)`
abbrev pub windows : List Host → List (Host × Host)
windows [] = []
windows (x ∷ []) = []
windows (x ∷ y ∷ xs) = (x, y) ∷ windows (y ∷ xs)

abbrev pub last_of : Host → List Host → Host
last_of x [] = x
last_of x (y ∷ ys) = last_of y ys

abbrev iter_bastions : Host → Option (List Host) → Host × Option BastionIter
iter_bastions target none = (target, none)
iter_bastions target (some []) = (target, none)
iter_bastions target (some (b ∷ bs)) = (
  last_of b bs,
  some (record {
    final_target = some (record { from = b; to = target });
    bastions = rev (windows (b ∷ bs));
  }),
)

-- `Chain::iter`
unfoldable pub iter : Chain → Host × Option BastionIter
iter c = iter_bastions c.target c.bastions

abbrev next_window : Option BastionItem → List (Host × Host) → Option BastionItem × BastionIter
next_window final [] = (final, record { final_target = none; bastions = [] })
next_window final ((a, b) ∷ ws) =
    (some (record { from = b; to = a }), record { final_target = final; bastions = ws })

-- `BastionIter::next`
unfoldable pub next : BastionIter → Option BastionItem × BastionIter
next it = next_window it.final_target it.bastions

abbrev len_of : Option BastionItem → List (Host × Host) → ℕ
len_of none ws = 0
len_of (some item) ws = length ws + 1

-- `BastionIter::len`
unfoldable pub len : BastionIter → ℕ
len it = len_of it.final_target it.bastions

-- `BastionIter::size_hint`
abbrev pub size_hint : BastionIter → ℕ × Option ℕ
size_hint it = (len it, some (len it))

-- `Auth::default`
abbrev pub default_auth : AuthConfig
default_auth = record {
  identities = none;
  cert = none;
  agent = none;
  identities_only = false;
  includes_none = true;
}
