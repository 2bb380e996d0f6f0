-- ===== src/Auth/Listed.antt =====
-- The lists of methods that an identity, a pair of methods or a configuration stands for (src/auth.rs).
use openrussh_client.Prelude.{Text, List, [], ◌∷◌, ◌++◌, Bool, true, false, Option, none, some}
use openrussh_client.Auth.KeyFile.{
  KeyType, maybe_public, maybe_private, key_error, Files, check_pub_or_priv,
}
use openrussh_client.Auth.{
  AuthLocalKind, local_priv, local_cert, full, agent_priv, agent_pub, agent_cert_priv,
  agent_cert_pub, AuthMethod, local, agent, filter_map, Pairs, from_config_with_agent_filtered,
}

-- The method of an identity under the agent, and without it.
abbrev pub agent_of : Text → Option Text → KeyType → Text → List AuthMethod
agent_of a cert key_error i = []
agent_of a none maybe_public i = agent a (agent_pub i) ∷ []
agent_of a none maybe_private i = agent a (agent_priv i) ∷ []
agent_of a (some c) maybe_public i = agent a (agent_cert_pub c i) ∷ []
agent_of a (some c) maybe_private i = agent a (agent_cert_priv c i) ∷ []

abbrev pub local_of : Option Text → KeyType → Text → List AuthMethod
local_of cert key_error i = []
local_of cert maybe_public i = []
local_of none maybe_private i = local (local_priv i) ∷ []
local_of (some c) maybe_private i = local (local_cert c i) ∷ []

abbrev pub some_items : Option (List Text) → List Text
some_items none = []
some_items (some ids) = ids

module _ (files : Files) where
  abbrev pub agents_of : Text → Option Text → List Text → List AuthMethod
  agents_of a cert [] = []
  agents_of a cert (i ∷ ids) = agent_of a cert (check_pub_or_priv files i) i ++ agents_of a cert ids

  abbrev pub locals_of : Option Text → List Text → List AuthMethod
  locals_of cert [] = []
  locals_of cert (i ∷ ids) = local_of cert (check_pub_or_priv files i) i ++ locals_of cert ids

  -- The methods of the agent: none without an agent, every identity of the agent without
  -- `IdentitiesOnly`, else one for each identity whose file can be used.
  abbrev pub agent_stack : Option Text → Bool → Option Text → List Text → List AuthMethod
  agent_stack none only cert ids = []
  agent_stack (some a) false cert ids = agent a full ∷ []
  agent_stack (some a) true cert ids = agents_of a cert ids

  unfoldable pub pairs : Option Text → List Text → Pairs
  unfolding from_config_with_agent_filtered
  pairs cert ids = filter_map (from_config_with_agent_filtered files cert) ids

-- The agent's and the local methods of the pairs.
abbrev pub pair_agents : Text → Pairs → List AuthMethod
pair_agents a [] = []
pair_agents a ((k, l) ∷ it) = agent a k ∷ pair_agents a it

abbrev pub local_list : Option AuthLocalKind → List AuthMethod
local_list none = []
local_list (some k) = local k ∷ []

abbrev pub pair_locals : Pairs → List AuthMethod
pair_locals [] = []
pair_locals ((k, l) ∷ it) = local_list l ++ pair_locals it

abbrev pub some_methods : Option (List AuthMethod) → List AuthMethod
some_methods none = []
some_methods (some ms) = ms
