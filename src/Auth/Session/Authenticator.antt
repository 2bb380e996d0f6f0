-- ===== src/Auth/Session/Authenticator.antt =====
-- `Authenticator` of src/auth.rs: the user and an agent, over the russh handle in the state.
use openrussh_client.Prelude.{Text, ◌≡◌, refl, ended, ended_ok, ended_err, M, pure, ◌>>=◌, on_err}
use openrussh_client.Auth.{AuthMethod, AuthAgentKind, agent}
use openrussh_client.Auth.Reply.{AuthError, AuthResult, connect_agent}
use openrussh_client.Auth.Session.{World, auth, auth_by_kind}

-- Without an agent, `A` is the unit type.
pub record Authenticator (A : Type 0) : Type 0 where
  pub user : Text
  pub client : A

-- `Authenticator::new`
abbrev pub new : Text → Authenticator (Unit {0})
new user = record { user = user; client = tt }

-- `Authenticator::set_agent`
abbrev pub set_agent : {A B : Type 0} → Authenticator A → B → Authenticator B
set_agent authenticator client = record { user = authenticator.user; client = client }

module _ {S A : Type 0} (w : World S A) where
  -- `helper::load_agent` and `Authenticator::load_agent`
  abbrev pub load_client : Text → M S AuthError A
  load_client socket = on_err connect_agent (w.connect_uds socket)

  unfoldable pub load_agent :
      {B : Type 0} → Authenticator B → Text → M S AuthError (Authenticator A)
  load_agent authenticator socket = do
    client ← load_client socket
    pure (set_agent authenticator client)

  -- `Authenticator::perform`
  unfoldable pub perform : Authenticator (Unit {0}) → AuthMethod → M S AuthError AuthResult
  unfolding auth
  perform authenticator method = auth w authenticator.user method

  -- `perform` with a method of an agent is `load_agent`, and then the method with that agent.
  perform-load_agent :
      (user socket : Text) (kind : AuthAgentKind) (s : S)
      → perform (new user) (agent socket kind) s
        ≡ (load_agent (new user) socket >>= λ a. auth_by_kind w a.user kind a.client) s
  unfolding perform load_agent
  perform-load_agent user socket kind s = elim (ended (w.connect_uds socket s)) [
    | ended_ok client t e ↦ rw e refl
    | ended_err x t e ↦ rw e refl
  ]
