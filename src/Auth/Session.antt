-- ===== src/Auth/Session.antt =====
-- `Authenticator` and `auth` (src/auth.rs), over the russh handle, the key files and the agent.
pub mod Certificates
pub mod Accepted
pub mod Confined
pub mod Authenticator
mod Tests
use openrussh_client.Prelude.{
  Text, List, Bool, true, false, Option, none, some, text_eq, if◌then◌else◌, Result, ok, err, M,
  pure, fail, on_err, map_err_pair, bind_pair, ◌>>=◌, ◌>>◌,
}
use openrussh_client.KnownHosts.Alg.{Algorithm, HashAlg}
use openrussh_client.Auth.{
  AuthLocalKind, local_priv, local_cert, AuthAgentKind, full, agent_priv, agent_pub,
  agent_cert_priv, agent_cert_pub, AuthMethod, no_auth, local, agent,
}
use openrussh_client.Auth.Reply.{
  AuthError, load_privkey, load_cert, host_cert, pubkey_mismatch, connect_agent, connection,
  AuthResult, ServerReply, AgentReply, Cause, Tried, try_from,
}
use openrussh_client.Auth.Agent.{
  Identity, public_key, certificate, Peer, find_hash_alg, auth_by_agent, all_in_agent,
}

-- `russh::keys::PublicKey`: its algorithm and its key data.
pub record PublicKey : Type 0 where
  pub algorithm : Algorithm
  pub key_data : Text

pub record PrivateKey : Type 0 where
  pub public : PublicKey

-- `russh::keys::Certificate`: its type, its algorithm, its public key's data and the rest.
pub record Certificate : Type 0 where
  pub is_user : Bool
  pub algorithm : Algorithm
  pub public_key : Text
  pub body : Text

-- The calls of other crates over the state `S` of the files, the server and the agents; `A` is an
-- agent's client. The user's name is the second argument of the requests.
pub record World (S A : Type 0) : Type 0 where
  pub load_public_key : Text → M S Cause PublicKey
  pub load_secret_key : Text → M S Cause PrivateKey
  pub load_openssh_certificate : Text → M S Cause Certificate
  pub connect_uds : Text → M S Cause A
  pub best_supported_rsa_hash : M S Cause (Option HashAlg)
  pub authenticate_none : Text → M S Cause ServerReply
  pub authenticate_publickey : Text → PrivateKey → Option HashAlg → M S Cause ServerReply
  pub authenticate_openssh_cert : Text → PrivateKey → Certificate → M S Cause ServerReply
  pub request_identities : A → M S Cause (List Identity)
  pub authenticate_with : A → Text → Identity → Option HashAlg → S → AgentReply × S

-- `AgentIdentity` of a key and of a certificate, as the calls of russh take them.
abbrev pub key_identity : PublicKey → Identity
key_identity k = public_key k.algorithm k.key_data

abbrev pub cert_identity : Certificate → Identity
cert_identity c = certificate c.is_user c.algorithm c.body

-- `check_pub_equality_against_pub`
unfoldable pub check_pub_equality_against_pub :
    {S : Type 0} → PublicKey → Certificate → M S AuthError (Unit {0})
check_pub_equality_against_pub k c s =
    if text_eq k.key_data c.public_key then (ok tt, s) else (err pubkey_mismatch, s)

-- `check_pub_equality_against_priv`
abbrev pub check_pub_equality_against_priv :
    {S : Type 0} → PrivateKey → Certificate → M S AuthError (Unit {0})
check_pub_equality_against_priv key cert = check_pub_equality_against_pub key.public cert

module _ {S A : Type 0} (w : World S A) where
  load_pub_local : Text → M S AuthError PublicKey
  load_pub_local path = on_err load_privkey (w.load_public_key path)

  load_priv_local : Text → M S AuthError PrivateKey
  load_priv_local path = on_err load_privkey (w.load_secret_key path)

  abbrev user_cert : Certificate → M S AuthError Certificate
  user_cert c s = if c.is_user then (ok c, s) else (err host_cert, s)

  load_cert_local : Text → M S AuthError Certificate
  load_cert_local path = do
    cert ← on_err load_cert (w.load_openssh_certificate path)
    user_cert cert

  abbrev reply : ServerReply → M S AuthError AuthResult
  reply r s = (try_from r, s)

  -- The user for whom the requests are made.
  module _ (user : Text) where
    -- `Authenticator::none`
    none_auth : M S AuthError AuthResult
    unfolding try_from
    none_auth = do res ← on_err connection (w.authenticate_none user); reply res

    auth_by_priv_local : PrivateKey → M S AuthError AuthResult
    unfolding find_hash_alg try_from
    auth_by_priv_local key = do
      hash_alg ← find_hash_alg w.best_supported_rsa_hash key.public.algorithm
      res ← on_err connection (w.authenticate_publickey user key hash_alg)
      reply res

    auth_by_cert_local : Certificate → PrivateKey → M S AuthError AuthResult
    unfolding try_from
    auth_by_cert_local cert key = do
      res ← on_err connection (w.authenticate_openssh_cert user key cert)
      reply res

    -- `Authenticator::local_priv_key` without an agent.
    local_priv_key : Text → M S AuthError AuthResult
    unfolding load_priv_local auth_by_priv_local
    local_priv_key path = do key ← load_priv_local path; auth_by_priv_local key

    -- `Authenticator::local_cert`
    local_cert_key : Text → Text → M S AuthError AuthResult
    unfolding load_cert_local load_priv_local check_pub_equality_against_pub auth_by_cert_local
    local_cert_key cert_path key_path = do
      cert ← load_cert_local cert_path
      key ← load_priv_local key_path
      check_pub_equality_against_priv key cert
      auth_by_cert_local cert key

    -- The handle and one agent, as the code for an agent's identities sees them.
    abbrev pub peer_of : A → Peer S
    peer_of client = record {
      best_supported_rsa_hash = w.best_supported_rsa_hash;
      request_identities = w.request_identities client;
      authenticate_with = w.authenticate_with client user;
    }

    -- `local_priv_key` with an agent: the private key is read for its public key.
    agent_priv_key : A → Text → M S AuthError AuthResult
    unfolding load_priv_local auth_by_agent
    agent_priv_key client path = do
      key ← load_priv_local path
      auth_by_agent (peer_of client) (key_identity key.public)

    -- `Authenticator::local_pub_key`
    agent_pub_key : A → Text → M S AuthError AuthResult
    unfolding load_pub_local auth_by_agent
    agent_pub_key client path = do
      key ← load_pub_local path
      auth_by_agent (peer_of client) (key_identity key)

    -- `Authenticator::local_cert_priv_key`
    agent_cert_priv_key : A → Text → Text → M S AuthError AuthResult
    unfolding load_cert_local load_priv_local check_pub_equality_against_pub auth_by_agent
    agent_cert_priv_key client cert_path key_path = do
      cert ← load_cert_local cert_path
      key ← load_priv_local key_path
      check_pub_equality_against_priv key cert
      auth_by_agent (peer_of client) (cert_identity cert)

    -- `Authenticator::local_cert_pub_key`
    agent_cert_pub_key : A → Text → Text → M S AuthError AuthResult
    unfolding load_cert_local load_pub_local check_pub_equality_against_pub auth_by_agent
    agent_cert_pub_key client cert_path key_path = do
      cert ← load_cert_local cert_path
      key ← load_pub_local key_path
      check_pub_equality_against_pub key cert
      auth_by_agent (peer_of client) (cert_identity cert)

    -- The `match kind` of `auth`.
    auth_by_kind : AuthAgentKind → A → M S AuthError AuthResult
    unfolding agent_priv_key agent_pub_key agent_cert_priv_key agent_cert_pub_key all_in_agent
    auth_by_kind full client = all_in_agent (peer_of client)
    auth_by_kind (agent_priv key) client = agent_priv_key client key
    auth_by_kind (agent_pub key) client = agent_pub_key client key
    auth_by_kind (agent_cert_priv cert key) client = agent_cert_priv_key client cert key
    auth_by_kind (agent_cert_pub cert key) client = agent_cert_pub_key client cert key

    -- `auth`, and `Authenticator::perform`.
    unfoldable pub auth : AuthMethod → M S AuthError AuthResult
    unfolding none_auth local_priv_key local_cert_key auth_by_kind
    auth no_auth = none_auth
    auth (local (local_priv key)) = local_priv_key key
    auth (local (local_cert cert key)) = local_cert_key cert key
    auth (agent socket kind) = do
      client ← on_err connect_agent (w.connect_uds socket)
      auth_by_kind kind client
