-- ===== src/Auth/Session/Confined.antt =====
-- What `auth` reads and asks (src/auth.rs).
use openrussh_client.Prelude.{Text, List, [], ◌∷◌, true, false, Option, ok, err}
use openrussh_client.Prelude.Keeps.{Keeps, Keeps-return, Keeps-on_err, Keeps-bind, keeps_rules}
use openrussh_client.KnownHosts.Alg.{HashAlg, Algorithm, rsa, ed25519, ecdsa, other}
use openrussh_client.Auth.{
  local_priv, local_cert, AuthAgentKind, full, agent_priv, agent_pub, agent_cert_priv,
  agent_cert_pub, AuthMethod, no_auth, local, agent,
}
use openrussh_client.Auth.Reply.{ServerReply, try_from, Tried, success, failure}
use openrussh_client.Auth.Loop.{go_on}
use openrussh_client.Auth.Agent.{
  Identity, public_key, certificate, find_hash_alg, auth_by_agent, agent_loop, signed, all_in_agent,
}
use openrussh_client.Auth.Session.{
  PublicKey, PrivateKey, Certificate, World, check_pub_equality_against_pub, load_pub_local,
  load_priv_local, load_cert_local, none_auth, auth_by_priv_local, auth_by_cert_local,
  local_priv_key, local_cert_key, peer_of, agent_priv_key, agent_pub_key, agent_cert_priv_key,
  agent_cert_pub_key, auth_by_kind, auth,
}

-- The files of keys and certificates and the sockets that may be used.
pub record Allowed : Type 1 where
  pub Key : Text → Type 0
  pub Cert : Text → Type 0
  pub Socket : Text → Type 0

-- An attempt, and what follows it.
go_on-Keeps :
    {S : Type 0} {P : S → Type 0} (rest m : S → Tried × S)
    → Keeps P m
    → Keeps P rest
    → Keeps P (λ s. go_on rest (m s))
go_on-Keeps {S} {P} rest m km kr = record { at = λ s h. after (m s) (km.at s h) }
  where
    after : (r : Tried × S) → P r.1 → P (go_on rest r).1
    after (err e, t) h = h
    after (ok success, t) h = h
    after (ok failure, t) h = kr.at t h

module _ (allowed : Allowed) where
  abbrev pub IsWithinAgent : AuthAgentKind → Type 0
  IsWithinAgent full = Unit
  IsWithinAgent (agent_priv key) = allowed.Key key
  IsWithinAgent (agent_pub key) = allowed.Key key
  IsWithinAgent (agent_cert_priv cert key) = allowed.Cert cert × allowed.Key key
  IsWithinAgent (agent_cert_pub cert key) = allowed.Cert cert × allowed.Key key

  -- The files and the socket of the method are allowed.
  abbrev pub IsWithin : AuthMethod → Type 0
  IsWithin no_auth = Unit
  IsWithin (local (local_priv key)) = allowed.Key key
  IsWithin (local (local_cert cert key)) = allowed.Cert cert × allowed.Key key
  IsWithin (agent socket kind) = allowed.Socket socket × IsWithinAgent kind

module _ {S A : Type 0} (w : World S A) (user : Text) (allowed : Allowed) (P : S → Type 0) where
  -- Requests for the user, what an agent is asked, and reading the allowed files keep it.
  pub record IsConfined : Type 0 where
    pub public_file : (path : Text) → allowed.Key path → Keeps P (w.load_public_key path)
    pub secret_file : (path : Text) → allowed.Key path → Keeps P (w.load_secret_key path)
    pub certificate_file :
        (path : Text) → allowed.Cert path → Keeps P (w.load_openssh_certificate path)
    pub agent_socket : (path : Text) → allowed.Socket path → Keeps P (w.connect_uds path)
    pub rsa_hash : Keeps P w.best_supported_rsa_hash
    pub ask_none : Keeps P (w.authenticate_none user)
    pub ask_publickey :
        (key : PrivateKey) (alg : Option HashAlg) → Keeps P (w.authenticate_publickey user key alg)
    pub ask_cert :
        (key : PrivateKey) (cert : Certificate)
        → Keeps P (w.authenticate_openssh_cert user key cert)
    pub ask_agent : (client : A) → Keeps P (w.request_identities client)
    pub ask_signed :
        (client : A) (id : Identity) (alg : Option HashAlg)
        → Keeps P (w.authenticate_with client user id alg)

  module _ (c : IsConfined) where
    reply-Keeps : (r : ServerReply) → Keeps P (λ s. (try_from r, s))
    reply-Keeps r = Keeps-return (try_from r)

    none_auth-Keeps : Keeps P (none_auth w user)
    unfolding none_auth
    none_auth-Keeps = Keeps-bind _ _ (Keeps-on_err _ _ c.ask_none) reply-Keeps

    find_hash_alg-Keeps : (a : Algorithm) → Keeps P (find_hash_alg w.best_supported_rsa_hash a)
    unfolding find_hash_alg
    find_hash_alg-Keeps (rsa h) = search (keeps_rules, c.rsa_hash)
    find_hash_alg-Keeps ed25519 = Keeps-return _
    find_hash_alg-Keeps (ecdsa d) = Keeps-return _
    find_hash_alg-Keeps (other n) = Keeps-return _

    load_priv_local-Keeps : (path : Text) → allowed.Key path → Keeps P (load_priv_local w path)
    unfolding load_priv_local
    load_priv_local-Keeps path a = search (keeps_rules, c.secret_file)

    load_pub_local-Keeps : (path : Text) → allowed.Key path → Keeps P (load_pub_local w path)
    unfolding load_pub_local
    load_pub_local-Keeps path a = search (keeps_rules, c.public_file)

    load_cert_local-Keeps : (path : Text) → allowed.Cert path → Keeps P (load_cert_local w path)
    unfolding load_cert_local
    load_cert_local-Keeps path a = search (keeps_rules, c.certificate_file)

    check_pub-Keeps :
        (k : PublicKey) (cert : Certificate) → Keeps P (check_pub_equality_against_pub k cert)
    unfolding check_pub_equality_against_pub
    check_pub-Keeps k cert = search keeps_rules

    asked-Keeps :
        (client : A) (id : Identity) (alg : Option HashAlg)
        → Keeps P (λ s.
          signed (peer_of w user client) ((peer_of w user client).authenticate_with id alg s))
    asked-Keeps client id alg = record { at = λ s h. (c.ask_signed client id alg).at s h }

    auth_by_agent-Keeps :
        (client : A) (id : Identity) → Keeps P (auth_by_agent (peer_of w user client) id)
    unfolding auth_by_agent
    auth_by_agent-Keeps client id = search (keeps_rules, find_hash_alg-Keeps, asked-Keeps)

    agent_loop-Keeps :
        (client : A) (ids : List Identity) → Keeps P (agent_loop (peer_of w user client) ids)
    unfolding agent_loop
    agent_loop-Keeps client [] = Keeps-return _
    agent_loop-Keeps client (public_key a k ∷ ids) =
        go_on-Keeps _ _ (auth_by_agent-Keeps client (public_key a k)) (agent_loop-Keeps client ids)
    agent_loop-Keeps client (certificate false a k ∷ ids) = record {
      at = λ s h. (agent_loop-Keeps client ids).at s h;
    }
    agent_loop-Keeps client (certificate true a k ∷ ids) =
        go_on-Keeps _ _ (auth_by_agent-Keeps client (certificate true a k))
          (agent_loop-Keeps client ids)

    ruleset confined_rules = (
      keeps_rules, reply-Keeps, find_hash_alg-Keeps, load_priv_local-Keeps, load_pub_local-Keeps,
      load_cert_local-Keeps, check_pub-Keeps, auth_by_agent-Keeps, agent_loop-Keeps,
    )

    auth_by_kind-Keeps :
        (kind : AuthAgentKind) (client : A)
        → IsWithinAgent allowed kind
        → Keeps P (auth_by_kind w user kind client)
    unfolding auth_by_kind all_in_agent agent_priv_key agent_pub_key agent_cert_priv_key
        agent_cert_pub_key
    auth_by_kind-Keeps full client a = search (confined_rules, c.ask_agent)
    auth_by_kind-Keeps (agent_priv key) client a = search confined_rules
    auth_by_kind-Keeps (agent_pub key) client a = search confined_rules
    auth_by_kind-Keeps (agent_cert_priv cert key) client (a, b) = search confined_rules
    auth_by_kind-Keeps (agent_cert_pub cert key) client (a, b) = search confined_rules

    -- A method reads only files and connects only to sockets that are allowed.
    pub auth-Keeps : (m : AuthMethod) → IsWithin allowed m → Keeps P (auth w user m)
    unfolding auth auth_by_priv_local auth_by_cert_local local_priv_key local_cert_key
    auth-Keeps no_auth a = none_auth-Keeps
    auth-Keeps (local (local_priv key)) a = search (confined_rules, c.ask_publickey)
    auth-Keeps (local (local_cert cert key)) (a, b) = search (confined_rules, c.ask_cert) depth 8
    auth-Keeps (agent socket kind) (a, b) =
        search (confined_rules, c.agent_socket, auth_by_kind-Keeps)
