-- ===== src/Auth/Session/Certificates.antt =====
-- Which certificates `auth` uses (src/auth.rs).
use openrussh_client.Prelude.{
  Text, Bool, true, false, ◌&&◌, text_eq, ◌≡◌, inl, inr, refl, Bool-cases, ok, err, M, ended,
  ended_ok, ended_err, on_err, bind_pair, ◌>>=◌, ◌>>◌, arith,
}
use openrussh_client.Prelude.Keeps.{Keeps}
use openrussh_client.Auth.{local, agent, local_cert, agent_cert_priv, agent_cert_pub}
use openrussh_client.Auth.Reply.{Cause, AuthError, AuthResult, Tried, load_privkey, connect_agent}
use openrussh_client.Auth.Session.{
  PublicKey, Certificate, World, check_pub_equality_against_pub, load_pub_local, load_priv_local,
  load_cert_local, auth,
}

-- A user's certificate for the key.
abbrev pub fits : Certificate → PublicKey → Bool
fits c k = c.is_user && text_eq k.key_data c.public_key

-- An error, in a state of the kind.
abbrev pub Rejected : {S : Type 0} → (S → Type 0) → Tried × S → Type 0
Rejected P r = ((e : AuthError) × (r.0 ≡ err e)) × P r.1

module _ {S A : Type 0} (w : World S A) (P : S → Type 0) where
  -- Reading files and connecting to an agent keep what the predicate says of the server.
  pub record IsKept : Type 0 where
    pub certificate_file : (path : Text) → Keeps P (w.load_openssh_certificate path)
    pub secret_file : (path : Text) → Keeps P (w.load_secret_key path)
    pub public_file : (path : Text) → Keeps P (w.load_public_key path)
    pub agent_socket : (path : Text) → Keeps P (w.connect_uds path)

  -- No certificate that the file can give fits a key that the load can give.
  abbrev pub NeverFit : {K : Type 0} → Text → M S Cause K → (K → PublicKey) → Type 0
  NeverFit {K} path load public =
      (c : Certificate) (k : K) (s t u v : S)
      → w.load_openssh_certificate path s ≡ (ok c, t)
      → load u ≡ (ok k, v)
      → fits c (public k) ≡ false

  -- The common part of the methods with a certificate.
  guarded :
      {K : Type 0}
      → Text
      → M S Cause K
      → (K → PublicKey)
      → (Certificate → K → M S AuthError AuthResult)
      → M S AuthError AuthResult
  unfolding load_cert_local check_pub_equality_against_pub
  guarded path load public rest = do
    cert ← load_cert_local w path
    key ← on_err load_privkey load
    check_pub_equality_against_pub (public key) cert
    rest cert key

  moved : {B : Type 0} (q : B × S) (b : B) (t : S) → q ≡ (b, t) → P q.1 → P t
  moved q b t e h = rw e at h

  guarded-Rejected :
      {K : Type 0} (path : Text) (load : M S Cause K) (public : K → PublicKey)
      (rest : Certificate → K → M S AuthError AuthResult)
      → Keeps P (w.load_openssh_certificate path)
      → Keeps P load
      → NeverFit path load public
      → (s : S) → P s
      → Rejected P (guarded path load public rest s)
  unfolding guarded
  guarded-Rejected path load public rest kc kl bad s p =
      elim (ended (w.load_openssh_certificate path s)) [
        | ended_err x t e ↦ rw e ((_, refl), moved _ (err x) t e (kc.at s p))
        | ended_ok c t e ↦
            let pt = moved _ (ok c) t e (kc.at s p) in
            elim (Bool-cases c.is_user) [
              | inr host ↦ rw (e, host) ((_, refl), pt)
              | inl user ↦ elim (ended (load t)) [
                | ended_err x u g ↦ rw (e, user, g) ((_, refl), moved _ (err x) u g (kl.at t pt))
                | ended_ok k u g ↦
                    let unlike : text_eq (public k).key_data c.public_key ≡ false =
                      unfitting c (public k) user (bad c k s t t u e g) in
                    rw (e, user, g, unlike) ((_, refl), moved _ (ok k) u g (kl.at t pt))
              ]
            ]
      ]
    where
      unfitting :
          (c : Certificate) (k : PublicKey)
          → c.is_user ≡ true
          → fits c k ≡ false
          → text_eq k.key_data c.public_key ≡ false
      unfitting c k h f = ground arith

  connected-Rejected :
      (socket : Text) (rest : A → M S AuthError AuthResult)
      → Keeps P (w.connect_uds socket)
      → ((client : A) (s : S) → P s → Rejected P (rest client s))
      → (s : S) → P s
      → Rejected P (bind_pair rest (on_err connect_agent (w.connect_uds socket) s))
  connected-Rejected socket rest ka h s p = elim (ended (w.connect_uds socket s)) [
    | ended_err x t e ↦ rw e ((_, refl), moved _ (err x) t e (ka.at s p))
    | ended_ok client t e ↦ rw e (h client t (moved _ (ok client) t e (ka.at s p)))
  ]

  module _ (kept : IsKept) (user cert key socket : Text) where
    -- A certificate that is not a user's, or is not for the key that goes with it, is never offered
    -- to the server: whatever holds of the server before, and is kept by reading files and
    -- connecting to an agent, holds after `auth`, and the result is an error, where no certificate
    -- and key that the two files can give fit. It holds for a private key beside the certificate,
    -- with and without an agent, and for a public key with an agent.
    pub auth-Rejected :
        NeverFit cert (w.load_secret_key key) (λ k. k.public)
        → NeverFit cert (w.load_public_key key) (λ k. k)
        → (s : S) → P s
        → Rejected P (auth w user (local (local_cert cert key)) s)
          × Rejected P (auth w user (agent socket (agent_cert_priv cert key)) s)
          × Rejected P (auth w user (agent socket (agent_cert_pub cert key)) s)
    unfolding auth guarded load_priv_local load_pub_local load_cert_local
        check_pub_equality_against_pub
    auth-Rejected priv pub_key s p = (
      guarded-Rejected cert (w.load_secret_key key) (λ k. k.public) _ (kept.certificate_file cert)
          (kept.secret_file key) priv s p,
      connected-Rejected socket _ (kept.agent_socket socket)
          (λ client.
            guarded-Rejected cert (w.load_secret_key key) (λ k. k.public) _
              (kept.certificate_file cert) (kept.secret_file key) priv)
          s p,
      connected-Rejected socket _ (kept.agent_socket socket)
          (λ client.
            guarded-Rejected cert (w.load_public_key key) (λ k. k) _ (kept.certificate_file cert)
              (kept.public_file key) pub_key)
          s p,
    )
