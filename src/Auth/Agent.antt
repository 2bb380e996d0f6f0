-- ===== src/Auth/Agent.antt =====
-- The authentication by an SSH agent (src/auth.rs): `helper` and `Authenticator::all_in_agent`.
pub mod Offers
use openrussh_client.Prelude.{
  Text, List, [], ◌∷◌, Bool, true, false, Option, none, some, Result, ok, err, M, on_err,
  map_err_pair, bind_pair, ◌>>=◌,
}
use openrussh_client.Auth.Reply.{
  AuthResult, success, failure, AuthError, connect_agent, connection, AgentReply, Cause, Tried,
  signer_result,
}
use openrussh_client.Auth.Loop.{go_on}
use openrussh_client.KnownHosts.Alg.{Algorithm, rsa, ed25519, ecdsa, other, HashAlg}

-- `AgentIdentity`: a key with its algorithm, or a certificate, which is a user's or not.
pub data Identity : Type 0 where
  public_key : Algorithm → Text → Identity
  certificate : Bool → Algorithm → Text → Identity

-- The russh handle and the agent's client over their joint state; the result of
-- `best_supported_rsa_hash` is flattened.
pub record Peer (S : Type 0) : Type 0 where
  pub best_supported_rsa_hash : M S Cause (Option HashAlg)
  pub request_identities : M S Cause (List Identity)
  pub authenticate_with : Identity → Option HashAlg → S → AgentReply × S

abbrev pub algorithm_of : Identity → Algorithm
algorithm_of (public_key a k) = a
algorithm_of (certificate user a k) = a

-- Only an RSA key asks the server for a hash.
unfoldable pub find_hash_alg :
    {S : Type 0}
    → (S → Result Cause (Option HashAlg) × S)
    → Algorithm
    → M S AuthError (Option HashAlg)
find_hash_alg best (rsa h) s = on_err connection best s
find_hash_alg best ed25519 s = (ok none, s)
find_hash_alg best (ecdsa c) s = (ok none, s)
find_hash_alg best (other n) s = (ok none, s)

-- `find_hash_alg` without the feature `rsa`.
abbrev pub find_hash_alg_without_rsa : {S : Type 0} → Algorithm → M S AuthError (Option HashAlg)
find_hash_alg_without_rsa alg s = (ok none, s)

module _ {S : Type 0} (peer : Peer S) where
  abbrev pub signed : AgentReply × S → Tried × S
  signed (reply, s) = (signer_result reply, s)

  -- `auth_by_pub_agent` and `auth_by_cert_agent`, which differ in the call of russh alone.
  unfoldable pub auth_by_agent : Identity → M S AuthError AuthResult
  unfolding signer_result find_hash_alg
  auth_by_agent id = do
    alg ← find_hash_alg peer.best_supported_rsa_hash (algorithm_of id)
    λ s. signed (peer.authenticate_with id alg s)

  -- The `for` loop of `all_in_agent`.
  unfoldable pub agent_loop : List Identity → M S AuthError AuthResult
  unfolding auth_by_agent
  agent_loop [] s = (ok failure, s)
  agent_loop (public_key a k ∷ ids) s = go_on (agent_loop ids) (auth_by_agent (public_key a k) s)
  agent_loop (certificate false a k ∷ ids) s = agent_loop ids s
  agent_loop (certificate true a k ∷ ids) s =
      go_on (agent_loop ids) (auth_by_agent (certificate true a k) s)

  -- `helper::all_identities`
  abbrev pub all_identities : M S AuthError (List Identity)
  all_identities = on_err connect_agent peer.request_identities

  -- `Authenticator::all_in_agent`
  unfoldable pub all_in_agent : M S AuthError AuthResult
  unfolding agent_loop
  all_in_agent = do ids ← all_identities; agent_loop ids
