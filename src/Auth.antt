-- ===== src/Auth.antt =====
-- The authentication stack (src/auth.rs): which methods a configuration gives, in which order.
pub mod KeyFile
pub mod Listed
pub mod Stack
pub mod Bare
pub mod Configured
pub mod Identities
pub mod Reply
pub mod Loop
pub mod Iter
pub mod Agent
pub mod Session
mod Tests
use openrussh_client.Prelude.{
  Result, ok, err, map_some, Text, List, [], ◌∷◌, ◌++◌, Bool, true, false, Option, none, some,
  if◌then◌else◌,
}
use openrussh_client.Auth.Reply.{AuthError, no_private_key, no_identity_filter}
use openrussh_client.Auth.KeyFile.{
  KeyType, maybe_public, maybe_private, key_error, Files, check_pub_or_priv,
}

pub data AuthLocalKind : Type 0 where
  -- By the private key.
  local_priv : Text → AuthLocalKind
  -- By the certificate and the private key.
  local_cert : Text → Text → AuthLocalKind

pub data AuthAgentKind : Type 0 where
  full : AuthAgentKind
  agent_priv : Text → AuthAgentKind
  agent_pub : Text → AuthAgentKind
  agent_cert_priv : Text → Text → AuthAgentKind
  agent_cert_pub : Text → Text → AuthAgentKind

pub data AuthMethod : Type 0 where
  no_auth : AuthMethod
  local : AuthLocalKind → AuthMethod
  agent : Text → AuthAgentKind → AuthMethod

-- `Either::Left` and `Either::Right` of `inner`.
pub data AuthMethods : Type 0 where
  singleton : AuthMethod → AuthMethods
  multiple : List AuthMethod → AuthMethods

-- `config::Auth`
pub record AuthConfig : Type 0 where
  pub includes_none : Bool
  pub agent : Option Text
  pub identities : Option (List Text)
  pub cert : Option Text
  pub identities_only : Bool

pub data ConfigState : Type 0 where
  agent_filtered : Text → List Text → Option Text → ConfigState
  agent_filtered_empty : ConfigState
  agent_full : Text → Option (List Text) → Option Text → ConfigState
  no_agent : List Text → Option Text → ConfigState
  no_agent_empty : ConfigState

abbrev pub state_of : Option Text → Bool → Option (List Text) → Option Text → ConfigState
state_of (some a) true (some ids) cert = agent_filtered a ids cert
state_of (some a) true none cert = agent_filtered_empty
state_of (some a) false ids cert = agent_full a ids cert
state_of none only (some ids) cert = no_agent ids cert
state_of none only none cert = no_agent_empty

-- `ConfigState::from_config`
abbrev pub config_state : AuthConfig → ConfigState
config_state auth = state_of auth.agent auth.identities_only auth.identities auth.cert

abbrev default : AuthMethods
default = singleton no_auth

unfoldable pub unwrap_or_default : Result AuthError AuthMethods → AuthMethods
unwrap_or_default (ok m) = m
unwrap_or_default (err e) = default

unfoldable pub iter : AuthMethods → List AuthMethod
iter (singleton m) = m ∷ []
iter (multiple ms) = ms

unfoldable pub push : AuthMethods → AuthMethod → AuthMethods
push (singleton m) method = multiple (m ∷ method ∷ [])
push (multiple ms) method = multiple (ms ++ method ∷ [])

abbrev pub filter_map {ℓ κ} : {A : Type ℓ} {B : Type κ} → (A → Option B) → List A → List B
filter_map f [] = []
filter_map f (x ∷ xs) = elim (f x) [ none ↦ filter_map f xs | some y ↦ y ∷ filter_map f xs ]

-- `from_config_no_agent`, after the look at the file.
unfoldable pub local_kind : KeyType → Option Text → Text → Option AuthLocalKind
local_kind maybe_private (some cert) identity = some (local_cert cert identity)
local_kind maybe_private none identity = some (local_priv identity)
local_kind maybe_public cert identity = none
local_kind key_error cert identity = none

-- `from_config_with_agent_filtered`, after the look at the file.
unfoldable pub filtered_kind :
    KeyType → Option Text → Text → Option (AuthAgentKind × Option AuthLocalKind)
filtered_kind key_error cert identity = none
filtered_kind maybe_private (some cert) identity =
    some (agent_cert_priv cert identity, some (local_cert cert identity))
filtered_kind maybe_private none identity = some (agent_priv identity, some (local_priv identity))
filtered_kind maybe_public (some cert) identity = some (agent_cert_pub cert identity, none)
filtered_kind maybe_public none identity = some (agent_pub identity, none)

-- `get_or_insert_default().push(method)` under `if let Some(local_method)`.
abbrev push_local : Option AuthLocalKind → Option (List AuthMethod) → Option (List AuthMethod)
push_local none ms = ms
push_local (some k) none = some (local k ∷ [])
push_local (some k) (some ms) = some (ms ++ local k ∷ [])

-- `methods.extend(local_methods)` under `if let Some(local_methods)`.
abbrev extend_some : List AuthMethod → Option (List AuthMethod) → List AuthMethod
extend_some ms none = ms
extend_some ms (some ls) = ms ++ ls

abbrev Pairs : Type 0
Pairs = List (AuthAgentKind × Option AuthLocalKind)

-- The `for` loop of `from_config_with_none`, with the `extend` behind it.
unfoldable pub with_none_loop :
    Text → List AuthMethod → Option (List AuthMethod) → Pairs → List AuthMethod
with_none_loop a methods locals [] = extend_some methods locals
with_none_loop a methods locals ((k, l) ∷ it) =
    with_none_loop a (methods ++ agent a k ∷ []) (push_local l locals) it

-- `get_or_insert_with(|| vec![first]).push(method)`
abbrev insert_push : AuthMethod → AuthMethod → Option (List AuthMethod) → List AuthMethod
insert_push first method none = first ∷ method ∷ []
insert_push first method (some ms) = ms ++ method ∷ []

-- The `for` loop of `from_config_without_none`, with what comes behind it.
unfoldable pub without_none_loop :
    Text → AuthMethod → Option (List AuthMethod) → Option (List AuthMethod) → Pairs → AuthMethods
without_none_loop a first none locals [] = singleton first
without_none_loop a first (some ms) locals [] = multiple (extend_some ms locals)
without_none_loop a first agents locals ((k, l) ∷ it) =
    without_none_loop a first (some (insert_push first (agent a k) agents)) (push_local l locals) it

unfoldable pub without_none_filtered : Text → Pairs → Result AuthError AuthMethods
unfolding without_none_loop
without_none_filtered a [] = err no_identity_filter
without_none_filtered a ((k, none) ∷ it) = ok (without_none_loop a (agent a k) none none it)
without_none_filtered a ((k, some l) ∷ it) =
    ok (without_none_loop a (agent a k) (some []) (some (local l ∷ [])) it)

-- The branches on the first items of the local methods.
abbrev first_with_none : List AuthMethod → AuthMethods
first_with_none [] = default
first_with_none (first ∷ it) = multiple (no_auth ∷ first ∷ it)

abbrev first_after_full : AuthMethod → List AuthMethod → AuthMethods
first_after_full f [] = singleton f
first_after_full f (first ∷ it) = multiple (f ∷ first ∷ it)

abbrev first_and_second : List AuthMethod → Result AuthError AuthMethods
first_and_second [] = err no_private_key
first_and_second (first ∷ []) = ok (singleton first)
first_and_second (first ∷ second ∷ it) = ok (multiple (first ∷ second ∷ it))

module _ (files : Files) where
  unfoldable pub from_config_no_agent : Option Text → Text → Option AuthLocalKind
  unfolding local_kind
  from_config_no_agent cert identity = local_kind (check_pub_or_priv files identity) cert identity

  unfoldable pub from_config_with_agent_filtered :
      Option Text → Text → Option (AuthAgentKind × Option AuthLocalKind)
  unfolding filtered_kind
  from_config_with_agent_filtered cert identity =
      filtered_kind (check_pub_or_priv files identity) cert identity

  -- The iterator of local methods that three branches build.
  abbrev local_methods : List Text → Option Text → List AuthMethod
  local_methods ids cert = filter_map (λ i. map_some local (from_config_no_agent cert i)) ids

  unfoldable pub from_config_with_none : ConfigState → AuthMethods
  unfolding with_none_loop from_config_with_agent_filtered
  from_config_with_none (agent_filtered a ids cert) =
      multiple (
        with_none_loop a (no_auth ∷ []) none
          (filter_map (from_config_with_agent_filtered cert) ids))
  from_config_with_none agent_filtered_empty = default
  from_config_with_none (agent_full a none cert) = multiple (no_auth ∷ agent a full ∷ [])
  from_config_with_none (agent_full a (some ids) cert) =
      multiple (no_auth ∷ agent a full ∷ local_methods ids cert)
  from_config_with_none (no_agent ids cert) = first_with_none (local_methods ids cert)
  from_config_with_none no_agent_empty = default

  unfoldable pub from_config_without_none : ConfigState → Result AuthError AuthMethods
  unfolding without_none_filtered from_config_with_agent_filtered
  from_config_without_none (agent_filtered a ids cert) =
      without_none_filtered a (filter_map (from_config_with_agent_filtered cert) ids)
  from_config_without_none agent_filtered_empty = err no_identity_filter
  from_config_without_none (agent_full a none cert) = ok (singleton (agent a full))
  from_config_without_none (agent_full a (some ids) cert) =
      ok (first_after_full (agent a full) (local_methods ids cert))
  from_config_without_none (no_agent ids cert) = first_and_second (local_methods ids cert)
  from_config_without_none no_agent_empty = err no_private_key

  -- `AuthMethods::from_config`
  unfoldable pub from_config : AuthConfig → AuthMethods
  unfolding from_config_with_none from_config_without_none unwrap_or_default
  from_config auth =
      if auth.includes_none
      then from_config_with_none (config_state auth)
      else unwrap_or_default (from_config_without_none (config_state auth))
