-- ===== src/Errors/Reading.antt =====
-- The text of an error says which error it is (src/error.rs).
use openrussh_client.Prelude.{
  Text, codes, ◌≡◌, refl, ap, Option, none, some, map_some, text_eq, if◌then◌else◌,
}
use openrussh_client.Auth.KeyFile.{strip_prefix}
use openrussh_client.Auth.Reply.{
  AuthError, no_private_key, no_identity_filter, load_privkey, load_cert, host_cert,
  pubkey_mismatch, connect_agent, request_agent, connection, pubkey_unsupported, multi_step,
}
use openrussh_client.Connect.{
  ConnectError, auth_error, auth_failure, establish, proxy_jump, make_error,
}
use openrussh_client.Errors.{auth_text, Shows, connect_text}

-- Tried in order: a text with a cause behind it, and one without.
abbrev behind {ℓ} : {A : Type ℓ} → Text → (Text → Option A) → Text → Option A → Option A
behind text make s others = elim (strip_prefix text s) [ none ↦ others | some rest ↦ make rest ]

abbrev alone {ℓ} : {A : Type ℓ} → Text → A → Text → Option A → Option A
alone text a s others = if text_eq s text then some a else others

unfoldable pub read_auth : Text → Option AuthError
unfolding strip_prefix
read_auth s = alone (codes "Private key is not configured") no_private_key s (
    alone (codes "`IdentitiesOnly` is `yes`, but no valid `IdentityFile` are found")
      no_identity_filter s
      (behind (codes "Could not load IdentityFile: ") (λ e. some (load_privkey e)) s
        (behind (codes "Could not load CertificateFile: ") (λ e. some (load_cert e)) s
          (alone (codes "The type of CertificateFile is host") host_cert s (
            alone (codes "Public keys from `IdentityFile` and `CertificateFile` are mismatched")
              pubkey_mismatch s
              (behind (codes "Failed connect to the SSH agent: ") (λ e. some (connect_agent e)) s
                (behind (codes "Unexpected error when authenticating wih the SSH agent: ")
                  (λ e. some (request_agent e)) s
                  (behind (codes "Connection failed during the authentication: ")
                    (λ e. some (connection e)) s
                    (alone (codes "Server does not support pubkey authentication")
                      pubkey_unsupported s
                      (alone
                        (codes
                          "Server requires the multi-step authentication, but we do not support it")
                        multi_step s none))))))))))

unfoldable pub read_connect : Text → Option (ConnectError Text Text Text)
unfolding strip_prefix read_auth
read_connect s =
    behind (codes "Error happened while authenticating: ") (λ e. map_some auth_error (read_auth e))
      s
      (alone (codes "Authentication failed") auth_failure s (
        behind (codes "Could not establish the connection (either TCP or TLS layer): ")
          (λ e. some (establish e)) s
          (behind (codes "Could not open a channel for proxy jump: ") (λ e. some (proxy_jump e)) s
            (behind (codes "Failed to make a handler: ") (λ e. some (make_error e)) s none))))

auth_text-read : (e : AuthError) → read_auth (auth_text e) ≡ some e
unfolding read_auth auth_text strip_prefix
auth_text-read no_private_key = refl
auth_text-read no_identity_filter = refl
auth_text-read (load_privkey e) = refl
auth_text-read (load_cert e) = refl
auth_text-read host_cert = refl
auth_text-read pubkey_mismatch = refl
auth_text-read (connect_agent e) = refl
auth_text-read (request_agent e) = refl
auth_text-read (connection e) = refl
auth_text-read pubkey_unsupported = refl
auth_text-read multi_step = refl

module _ {E R F : Type 0} (shows : Shows E R F) where
  -- An error with the errors of other crates as they are written.
  abbrev pub written : ConnectError E R F → ConnectError Text Text Text
  written (auth_error e) = auth_error e
  written auth_failure = auth_failure
  written (establish e) = establish (shows.debug_handler e)
  written (proxy_jump e) = proxy_jump (shows.show_russh e)
  written (make_error e) = make_error (shows.show_maker e)

  -- From the text of a connection's error the error can be read back, up to the errors of other
  -- crates, of which the text that is written of them can; in particular the texts of two errors of
  -- different kinds differ, those of the authentication included.
  pub read_connect-connect_text :
      (e : ConnectError E R F) → read_connect (connect_text shows e) ≡ some (written e)
  unfolding read_connect connect_text strip_prefix
  read_connect-connect_text (auth_error e) = ap (map_some auth_error) (auth_text-read e)
  read_connect-connect_text auth_failure = refl
  read_connect-connect_text (establish e) = refl
  read_connect-connect_text (proxy_jump e) = refl
  read_connect-connect_text (make_error e) = refl
