-- ===== src/Auth/Session/Accepted.antt =====
-- Where `auth` reports a success, the server has accepted a request (src/auth.rs).
use openrussh_client.Prelude.{
  Text, List, [], ◌∷◌, ◌≡◌, refl, sym, ap, ◌∙◌, true, false, Option, Result, ok, err, M, bind_pair,
  on_err, map_err_pair, ◌>>=◌, ended, ended_ok, ended_err,
}
use openrussh_client.KnownHosts.Alg.{HashAlg}
use openrussh_client.Auth.{
  local_priv, local_cert, AuthAgentKind, full, agent_priv, agent_pub, agent_cert_priv,
  agent_cert_pub, AuthMethod, no_auth, local, agent,
}
use openrussh_client.Auth.Reply.{
  Cause, AuthError, AuthResult, success, failure, ServerReply, accepted, refused, AgentReply,
  replied, agent_failure, agent_error, Tried, try_from, signer_result,
}
use openrussh_client.Auth.Loop.{try_each}
use openrussh_client.Auth.Agent.{Identity, find_hash_alg, auth_by_agent, all_in_agent, algorithm_of}
use openrussh_client.Auth.Agent.Offers.{offered, loop-try_each}
use openrussh_client.Auth.Session.{
  key_identity, cert_identity, PrivateKey, Certificate, World, check_pub_equality_against_pub,
  load_pub_local, load_priv_local, load_cert_local, none_auth, auth_by_priv_local,
  auth_by_cert_local, local_priv_key, local_cert_key, peer_of, agent_priv_key, agent_pub_key,
  agent_cert_priv_key, agent_cert_pub_key, auth_by_kind, auth,
}

accepted-try_from : (r : ServerReply) → try_from r ≡ ok success → r ≡ accepted
unfolding try_from
accepted-try_from accepted h = refl
accepted-try_from (refused false p) h = absurd cc
accepted-try_from (refused true true) h = absurd cc
accepted-try_from (refused true false) h = absurd cc

accepted-signer_result : (r : AgentReply) → signer_result r ≡ ok success → r ≡ replied accepted
unfolding signer_result
accepted-signer_result (replied accepted) h = refl
accepted-signer_result (replied (refused k true)) h = absurd cc
accepted-signer_result (replied (refused k false)) h = absurd cc
accepted-signer_result agent_failure h = absurd cc
accepted-signer_result (agent_error e) h = absurd cc

module _ {S A : Type 0} (w : World S A) (user : Text) where
  -- A request for the user that the server accepted has led to the state.
  pub data AcceptedIn : S → Type 0 where
    none_accepted : (s : S) → {t : S} → w.authenticate_none user s ≡ (ok accepted, t) → AcceptedIn t
    key_accepted :
        (key : PrivateKey)
        → (alg : Option HashAlg) → (s : S) → {t : S}
        → w.authenticate_publickey user key alg s ≡ (ok accepted, t)
        → AcceptedIn t
    cert_accepted :
        (key : PrivateKey)
        → (cert : Certificate) → (s : S) → {t : S}
        → w.authenticate_openssh_cert user key cert s ≡ (ok accepted, t)
        → AcceptedIn t
    agent_accepted :
        (client : A)
        → (id : Identity) → (alg : Option HashAlg) → (s : S) → {t : S}
        → w.authenticate_with client user id alg s ≡ (replied accepted, t)
        → AcceptedIn t

  -- A success of the code is one of the server.
  abbrev IsSound : M S AuthError AuthResult → Type 0
  IsSound m = (s t : S) → m s ≡ (ok success, t) → AcceptedIn t

  bind-IsSound :
      {B : Type 0} (m : M S AuthError B) (f : B → M S AuthError AuthResult)
      → ((b : B) → IsSound (f b))
      → IsSound (m >>= f)
  bind-IsSound m f h s t e = after (m s) e
    where
      after : (p : Result AuthError _ × S) → bind_pair f p ≡ (ok success, t) → AcceptedIn t
      after (ok b, u) q = h b u t q
      after (err x, u) q = absurd cc

  -- A request, with what is made of the reply.
  request-IsSound :
      (f : Cause → AuthError) (m : M S Cause ServerReply)
      → ((s t : S) → m s ≡ (ok accepted, t) → AcceptedIn t)
      → IsSound (on_err f m >>= λ r s. (try_from r, s))
  request-IsSound f m h s t e = after (m s) refl e
    where
      after :
          (p : Result Cause ServerReply × S)
          → m s ≡ p
          → bind_pair (λ r u. (try_from r, u)) (map_err_pair f p) ≡ (ok success, t)
          → AcceptedIn t
      after (err x, u) q g = absurd cc
      after (ok r, u) q g = h s t (
          q
          ∙ ap (λ k. (ok k, u)) (accepted-try_from r (ap (λ z. z.0) g))
          ∙ ap (λ v. (ok accepted, v)) (ap (λ z. z.1) g))

  none_auth-IsSound : IsSound (none_auth w user)
  unfolding none_auth
  none_auth-IsSound = request-IsSound _ (w.authenticate_none user) (λ s t e. none_accepted s e)

  auth_by_priv_local-IsSound : (key : PrivateKey) → IsSound (auth_by_priv_local w user key)
  unfolding auth_by_priv_local
  auth_by_priv_local-IsSound key =
      bind-IsSound (find_hash_alg w.best_supported_rsa_hash key.public.algorithm) _ (λ alg.
        request-IsSound _ (w.authenticate_publickey user key alg)
          (λ s t e. key_accepted key alg s e))

  auth_by_cert_local-IsSound :
      (cert : Certificate) (key : PrivateKey) → IsSound (auth_by_cert_local w user cert key)
  unfolding auth_by_cert_local
  auth_by_cert_local-IsSound cert key =
      request-IsSound _ (w.authenticate_openssh_cert user key cert)
        (λ s t e. cert_accepted key cert s e)

  local_priv_key-IsSound : (path : Text) → IsSound (local_priv_key w user path)
  unfolding local_priv_key
  local_priv_key-IsSound path = bind-IsSound (load_priv_local w path) _ auth_by_priv_local-IsSound

  local_cert_key-IsSound :
      (cert_path key_path : Text) → IsSound (local_cert_key w user cert_path key_path)
  unfolding local_cert_key
  local_cert_key-IsSound cert_path key_path = bind-IsSound (load_cert_local w cert_path) _ (λ cert.
      bind-IsSound (load_priv_local w key_path) _ (λ key.
        bind-IsSound (check_pub_equality_against_pub key.public cert) _
          (λ u. auth_by_cert_local-IsSound cert key)))

  module _ (client : A) where
    auth_by_agent-IsSound : (id : Identity) → IsSound (auth_by_agent (peer_of w user client) id)
    unfolding auth_by_agent
    auth_by_agent-IsSound id =
        bind-IsSound (find_hash_alg w.best_supported_rsa_hash (algorithm_of id)) _
          (λ alg s t e. after alg s t (w.authenticate_with client user id alg s) refl e)
      where
        after :
            (alg : Option HashAlg) (s t : S) (p : AgentReply × S)
            → w.authenticate_with client user id alg s ≡ p
            → ◌≡◌ {A = Tried × S} (signer_result p.0, p.1) (ok success, t)
            → AcceptedIn t
        after alg s t (r, u) q g = agent_accepted client id alg s (
            q
            ∙ ap (λ k. (k, u)) (accepted-signer_result r (ap (λ z. z.0) g))
            ∙ ap (λ v. (replied accepted, v)) (ap (λ z. z.1) g))

    try_each-IsSound :
        (ids : List Identity) → IsSound (try_each (auth_by_agent (peer_of w user client)) ids)
    unfolding try_each
    try_each-IsSound [] s t e = absurd cc
    try_each-IsSound (id ∷ ids) s t e = elim (ended (auth_by_agent (peer_of w user client) id s)) [
      | ended_err x u q ↦ absurd (clash x u t (rw q at e))
      | ended_ok success u q ↦ auth_by_agent-IsSound id s t (q ∙ rw q at e)
      | ended_ok failure u q ↦ try_each-IsSound ids u t (rw q at e)
    ]
      where
        clash : (x : AuthError) (u t : S) → ◌≡◌ {A = Tried × S} (err x, u) (ok success, t) → ⊥
        clash x u t q = cc

    all_in_agent-IsSound : IsSound (all_in_agent (peer_of w user client))
    unfolding all_in_agent
    all_in_agent-IsSound = bind-IsSound (on_err _ (w.request_identities client)) _ (λ ids s t e.
        try_each-IsSound (offered ids) s t (sym (loop-try_each (peer_of w user client) ids s) ∙ e))

    auth_by_kind-IsSound : (kind : AuthAgentKind) → IsSound (auth_by_kind w user kind client)
    unfolding auth_by_kind agent_priv_key agent_pub_key agent_cert_priv_key agent_cert_pub_key
    auth_by_kind-IsSound full = all_in_agent-IsSound
    auth_by_kind-IsSound (agent_priv path) =
        bind-IsSound (load_priv_local w path) _
          (λ key. auth_by_agent-IsSound (key_identity key.public))
    auth_by_kind-IsSound (agent_pub path) =
        bind-IsSound (load_pub_local w path) _ (λ key. auth_by_agent-IsSound (key_identity key))
    auth_by_kind-IsSound (agent_cert_priv cert_path key_path) =
        bind-IsSound (load_cert_local w cert_path) _ (λ cert.
          bind-IsSound (load_priv_local w key_path) _ (λ key.
            bind-IsSound (check_pub_equality_against_pub key.public cert) _
              (λ u. auth_by_agent-IsSound (cert_identity cert))))
    auth_by_kind-IsSound (agent_cert_pub cert_path key_path) =
        bind-IsSound (load_cert_local w cert_path) _ (λ cert.
          bind-IsSound (load_pub_local w key_path) _ (λ key.
            bind-IsSound (check_pub_equality_against_pub key cert) _
              (λ u. auth_by_agent-IsSound (cert_identity cert))))

  -- Where `auth` reports a success, by whatever method, its last request to the server was one for
  -- this user that the server accepted.
  pub auth-AcceptedIn :
      (method : AuthMethod) (s t : S) → auth w user method s ≡ (ok success, t) → AcceptedIn t
  unfolding auth
  auth-AcceptedIn no_auth s t e = none_auth-IsSound s t e
  auth-AcceptedIn (local (local_priv path)) s t e = local_priv_key-IsSound path s t e
  auth-AcceptedIn (local (local_cert cert key)) s t e = local_cert_key-IsSound cert key s t e
  auth-AcceptedIn (agent socket kind) s t e =
      bind-IsSound (on_err _ (w.connect_uds socket)) _ (λ client. auth_by_kind-IsSound client kind)
        s t e
