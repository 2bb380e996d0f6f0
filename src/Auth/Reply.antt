-- ===== src/Auth/Reply.antt =====
-- The results and errors of an authentication (src/auth.rs).
use openrussh_client.Prelude.{Text, Bool, true, false, not, if◌then◌else◌, Result, ok, err}

-- An error of another crate, by the text that its `Display` gives.
abbrev pub Cause : Type 0
Cause = Text

-- `auth::Error`
pub data AuthError : Type 0 where
  no_private_key no_identity_filter host_cert pubkey_mismatch pubkey_unsupported multi_step :
      AuthError
  load_privkey load_cert connect_agent request_agent connection : Cause → AuthError

pub data AuthResult : Type 0 where
  success failure : AuthResult

-- `AuthResult::is_success` and `AuthResult::is_failure`
abbrev pub is_success : AuthResult → Bool
is_success success = true
is_success failure = false

abbrev pub is_failure : AuthResult → Bool
is_failure success = false
is_failure failure = true

-- `russh::client::AuthResult`: a refusal says whether `publickey` is among the remaining methods and
-- whether it is a partial success.
pub data ServerReply : Type 0 where
  accepted : ServerReply
  refused : Bool → Bool → ServerReply

-- What `authenticate_publickey_with` and `authenticate_certificate_with` return; `agent_failure` is the
-- error `AgentAuthError::Key(AgentFailure)`, and `agent_error` every other one.
pub data AgentReply : Type 0 where
  replied : ServerReply → AgentReply
  agent_failure : AgentReply
  agent_error : Cause → AgentReply

abbrev pub Tried : Type 0
Tried = Result AuthError AuthResult

-- `AuthResult::try_from`
unfoldable pub try_from : ServerReply → Tried
try_from accepted = ok success
try_from (refused has_public_key partial) =
    if not has_public_key
    then err pubkey_unsupported
    else if partial
    then err multi_step
    else ok failure

-- `signer_result`
unfoldable pub signer_result : AgentReply → Tried
signer_result (replied accepted) = ok success
signer_result (replied (refused has_public_key false)) = ok failure
signer_result agent_failure = ok failure
signer_result (replied (refused has_public_key true)) = err multi_step
signer_result (agent_error e) = err (request_agent e)
