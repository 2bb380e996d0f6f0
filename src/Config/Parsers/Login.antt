-- ===== src/Config/Parsers/Login.antt =====
-- How a user logs in to a host, by the host's configuration: `parse_auth` (src/config.rs).
use openrussh_client.Prelude.{
  Text, codes, List, [], ◌∷◌, ◌≡◌, ◌↔◌, refl, true, Option, none, some, map_some, text_eq_sound, ap,
  arith,
}
use openrussh_client.Auth.{filter_map}
use openrussh_client.Config.Paths.{Env, expand_tilde, agent_from_env, parse_agent}
use openrussh_client.Config.Paths.Expanded.{
  Expanded, expand_tilde-Expanded, AgentFrom, agent_from_env-AgentFrom, Asked, parse_agent-Asked,
}
use openrussh_client.Config.Parsers.{
  HostParams, first_is_yes, first_agent, agent_or_env, expand_cert, parse_auth,
}

module _ (env : Env) where
  -- The paths that there are, in order.
  pub data Each : List Text → List Text → Type 0 where
    nothing : Each [] []
    taken :
        (path file : Text) (paths files : List Text)
        → Expanded env path (some file)
        → Each paths files
        → Each (path ∷ paths) (file ∷ files)
    left_out :
        (path : Text) (paths files : List Text)
        → Expanded env path none
        → Each paths files
        → Each (path ∷ paths) files

  pub data Identities : Option (List Text) → Option (List Text) → Type 0 where
    no_field : Identities none none
    field : (paths files : List Text) → Each paths files → Identities (some paths) (some files)

  pub data Certificate : Option Text → Option Text → Type 0 where
    no_field : Certificate none none
    field : (path : Text) (r : Option Text) → Expanded env path r → Certificate (some path) r

  -- Only the first value of `IdentityAgent` counts. Where it asks for no agent, and where what it
  -- asks for is not there, the agent is that of the environment, as it is without a value.
  pub data Agent : Option (List Text) → Option Text → Type 0 where
    no_field : (r : Option Text) → AgentFrom env (codes "SSH_AUTH_SOCK") r → Agent none r
    no_value : (r : Option Text) → AgentFrom env (codes "SSH_AUTH_SOCK") r → Agent (some []) r
    asked :
        (value agent : Text) (values : List Text)
        → Asked env value (some agent)
        → Agent (some (value ∷ values)) (some agent)
    not_there :
        (value : Text) (values : List Text) (r : Option Text)
        → Asked env value none
        → AgentFrom env (codes "SSH_AUTH_SOCK") r
        → Agent (some (value ∷ values)) r

  path-Each :
      (path : Text) (paths files : List Text) (r : Option Text)
      → Expanded env path r
      → Each paths files
      → Each (path ∷ paths) (elim r [ none ↦ files | some file ↦ file ∷ files ])
  path-Each path paths files none e rest = left_out path paths files e rest
  path-Each path paths files (some file) e rest = taken path file paths files e rest

  paths-Each : (paths : List Text) → Each paths (filter_map (expand_tilde env) paths)
  paths-Each [] = nothing
  paths-Each (path ∷ paths) =
      path-Each path paths (filter_map (expand_tilde env) paths) (expand_tilde env path)
        (expand_tilde-Expanded env path) (paths-Each paths)

  map_some-Identities :
      (ids : Option (List Text)) → Identities ids (map_some (filter_map (expand_tilde env)) ids)
  map_some-Identities none = Identities.no_field
  map_some-Identities (some paths) =
      Identities.field paths (filter_map (expand_tilde env) paths) (paths-Each paths)

  expand_cert-Certificate : (cert : Option Text) → Certificate cert (expand_cert env cert)
  expand_cert-Certificate none = Certificate.no_field
  expand_cert-Certificate (some path) =
      Certificate.field path (expand_tilde env path) (expand_tilde-Expanded env path)

  agent_or_env-Agent :
      (value : Text) (values : List Text) (r : Option Text)
      → Asked env value r
      → Agent (some (value ∷ values)) (agent_or_env env r)
  agent_or_env-Agent value values none a =
      not_there value values (agent_from_env env (codes "SSH_AUTH_SOCK")) a
        (agent_from_env-AgentFrom env (codes "SSH_AUTH_SOCK"))
  agent_or_env-Agent value values (some agent) a = asked value agent values a

  first_agent-Agent :
      (values : Option (List Text)) → Agent values (agent_or_env env (first_agent env values))
  first_agent-Agent none =
      Agent.no_field (agent_from_env env (codes "SSH_AUTH_SOCK"))
        (agent_from_env-AgentFrom env (codes "SSH_AUTH_SOCK"))
  first_agent-Agent (some []) =
      no_value (agent_from_env env (codes "SSH_AUTH_SOCK"))
        (agent_from_env-AgentFrom env (codes "SSH_AUTH_SOCK"))
  first_agent-Agent (some (value ∷ values)) =
      agent_or_env-Agent value values (parse_agent env value) (parse_agent-Asked env value)

  -- The first value of the field is `yes`.
  abbrev pub IsYes : Option (List Text) → Type 0
  IsYes flag = (values : List Text) × (flag ≡ some (codes "yes" ∷ values))

  first_is_yes-IsYes : (flag : Option (List Text)) → first_is_yes flag ≡ true → IsYes flag
  first_is_yes-IsYes none h = ground arith
  first_is_yes-IsYes (some []) h = ground arith
  first_is_yes-IsYes (some (value ∷ values)) h =
      (values, ap (λ v. some (v ∷ values)) (text_eq_sound value (codes "yes") h))

  IsYes-first_is_yes : (flag : Option (List Text)) → IsYes flag → first_is_yes flag ≡ true
  IsYes-first_is_yes flag (values, e) = rw e refl

  -- How a user logs in: the identities and the certificate are the paths of the configuration that
  -- there are, with `~` replaced; the agent is the one that the first `IdentityAgent` asks for, or
  -- else that of the environment, so that `IdentityAgent none` gives the agent of `SSH_AUTH_SOCK`;
  -- only the identities of the configuration are used exactly if the first `IdentitiesOnly` is
  -- `yes`; and `none` is tried.
  pub parse_auth-Parsed :
      (conf : HostParams)
      → Identities conf.identity_file (parse_auth env conf).identities
        × Certificate conf.certificate_file (parse_auth env conf).cert
        × Agent (conf.unsupported_fields (codes "identityagent")) (parse_auth env conf).agent
        × (((parse_auth env conf).identities_only ≡ true)
            ↔ IsYes (conf.unsupported_fields (codes "identitiesonly")))
        × ((parse_auth env conf).includes_none ≡ true)
  unfolding parse_auth
  parse_auth-Parsed conf = (
    map_some-Identities conf.identity_file,
    expand_cert-Certificate conf.certificate_file,
    first_agent-Agent (conf.unsupported_fields (codes "identityagent")),
    (
      first_is_yes-IsYes (conf.unsupported_fields (codes "identitiesonly")),
      IsYes-first_is_yes (conf.unsupported_fields (codes "identitiesonly")),
    ),
    refl,
  )

-- With `IdentityAgent none`, the agent is the one that `SSH_AUTH_SOCK` names in the environment.
parse_auth-agent_none :
    (env : Env) (conf : HostParams) (vs : List Text)
    → conf.unsupported_fields (codes "identityagent") ≡ some (codes "none" ∷ vs)
    → (parse_auth env conf).agent ≡ agent_from_env env (codes "SSH_AUTH_SOCK")
unfolding parse_auth parse_agent
parse_auth-agent_none env conf vs h = rw h refl
