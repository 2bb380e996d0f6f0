-- ===== src/Errors.antt =====
-- The texts and sources of the crate's errors (src/error.rs).
pub mod Reading
mod Tests
use openrussh_client.Prelude.{Text, codes, ◌++◌, List, Option, none, some, ◌⊎◌, inl, inr}
use openrussh_client.Auth.Reply.{
  Cause, AuthError, no_private_key, no_identity_filter, load_privkey, load_cert, host_cert,
  pubkey_mismatch, connect_agent, request_agent, connection, pubkey_unsupported, multi_step,
}
use openrussh_client.Connect.{
  ConnectError, auth_error, auth_failure, establish, proxy_jump, make_error,
}
use openrussh_client.Forward.{ForwardError, open_channel, copy_bytes}

-- `Display for AuthError`
unfoldable pub auth_text : AuthError → Text
auth_text no_private_key = codes "Private key is not configured"
auth_text no_identity_filter =
    codes "`IdentitiesOnly` is `yes`, but no valid `IdentityFile` are found"
auth_text (load_privkey e) = codes "Could not load IdentityFile: " ++ e
auth_text (load_cert e) = codes "Could not load CertificateFile: " ++ e
auth_text host_cert = codes "The type of CertificateFile is host"
auth_text pubkey_mismatch =
    codes "Public keys from `IdentityFile` and `CertificateFile` are mismatched"
auth_text (connect_agent e) = codes "Failed connect to the SSH agent: " ++ e
auth_text (request_agent e) = codes "Unexpected error when authenticating wih the SSH agent: " ++ e
auth_text (connection e) = codes "Connection failed during the authentication: " ++ e
auth_text pubkey_unsupported = codes "Server does not support pubkey authentication"
auth_text multi_step =
    codes "Server requires the multi-step authentication, but we do not support it"

-- `StdError::source for AuthError`
unfoldable pub auth_source : AuthError → Option Cause
auth_source (load_privkey e) = some e
auth_source (load_cert e) = some e
auth_source host_cert = none
auth_source (connect_agent e) = some e
auth_source (request_agent e) = some e
auth_source (connection e) = some e
auth_source pubkey_unsupported = none
auth_source multi_step = none
auth_source pubkey_mismatch = none
auth_source no_private_key = none
auth_source no_identity_filter = none

-- The error behind an error of a connection.
pub data ConnectSource (E R F : Type 0) : Type 0 where
  from_auth : AuthError → ConnectSource E R F
  from_handler : E → ConnectSource E R F
  from_russh : R → ConnectSource E R F
  from_maker : F → ConnectSource E R F

-- `StdError::source for ConnectError`
unfoldable pub connect_source : {E R F : Type 0} → ConnectError E R F → Option (ConnectSource E R F)
connect_source (auth_error e) = some (from_auth e)
connect_source (establish e) = some (from_handler e)
connect_source (proxy_jump e) = some (from_russh e)
connect_source (make_error e) = some (from_maker e)
connect_source auth_failure = none

-- How the errors of other crates are written: `Debug` for that of a handler, `Display` for the others.
pub record Shows (E R F : Type 0) : Type 0 where
  pub debug_handler : E → Text
  pub show_russh : R → Text
  pub show_maker : F → Text

-- `Display for ConnectError`
unfoldable pub connect_text : {E R F : Type 0} → Shows E R F → ConnectError E R F → Text
unfolding auth_text
connect_text shows (auth_error e) = codes "Error happened while authenticating: " ++ auth_text e
connect_text shows auth_failure = codes "Authentication failed"
connect_text shows (establish e) =
    codes "Could not establish the connection (either TCP or TLS layer): " ++ shows.debug_handler e
connect_text shows (proxy_jump e) =
    codes "Could not open a channel for proxy jump: " ++ shows.show_russh e
connect_text shows (make_error e) = codes "Failed to make a handler: " ++ shows.show_maker e

-- `Display for LocalForwardError`
unfoldable pub forward_text : {R I : Type 0} → (R → Text) → (I → Text) → ForwardError R I → Text
forward_text show_russh show_io (open_channel e) =
    codes "Could not open a channel for local forwarding: " ++ show_russh e
forward_text show_russh show_io (copy_bytes e) =
    codes "Could not forward the local socket to the server: " ++ show_io e

-- `StdError::source for LocalForwardError`
unfoldable pub forward_source : {R I : Type 0} → ForwardError R I → R ⊎ I
forward_source (open_channel e) = inl e
forward_source (copy_bytes e) = inr e

-- `config::Error`, with the error of `whoami`; there is none without the feature `config-parser`.
pub data ConfigParseError (W : Type 0) : Type 0 where
  user_not_found : W → ConfigParseError W

-- `Display for ConfigParseError` and `StdError::source for ConfigParseError`
unfoldable pub config_text : {W : Type 0} → (W → Text) → ConfigParseError W → Text
config_text show_whoami (user_not_found e) =
    codes "Could not get your user name so we do not know which user to login: " ++ show_whoami e

unfoldable pub config_source : {W : Type 0} → ConfigParseError W → W
config_source (user_not_found e) = e

-- `Debug for ConnectError`: the name, and the text of the one field, by `debug_tuple`.
abbrev debug_tuple : Text → Text → Text
debug_tuple name field = name ++ (codes "(" ++ (field ++ codes ")"))

pub record Debugs (E R F : Type 0) : Type 0 where
  pub debug_auth : AuthError → Text
  pub debug_establish : E → Text
  pub debug_russh : R → Text
  pub debug_maker : F → Text

unfoldable pub connect_debug : {E R F : Type 0} → Debugs E R F → ConnectError E R F → Text
connect_debug shows (auth_error e) = debug_tuple (codes "AuthError") (shows.debug_auth e)
connect_debug shows auth_failure = codes "AuthFailure"
connect_debug shows (establish e) = debug_tuple (codes "Establish") (shows.debug_establish e)
connect_debug shows (proxy_jump e) = debug_tuple (codes "ProxyJump") (shows.debug_russh e)
connect_debug shows (make_error e) = debug_tuple (codes "MakeHandler") (shows.debug_maker e)
