-- ===== src/Auth/Identities.antt =====
-- The files that the methods of a configuration depend on (src/auth.rs).
use openrussh_client.Prelude.{
  Text, List, [], ◌∷◌, ◌≡◌, refl, sym, ap, ◌∙◌, Bool, true, false, Bool-cases, inl, inr, Option,
  none, some,
}
use mathlib.Core.List.{Mem, mem-cons_self, mem-cons_of_mem}
use openrussh_client.Auth.KeyFile.{Files, extension, unwrap_or_error, check_pub_or_priv}
use openrussh_client.Auth.KeyFile.Kind.{kind_of, check-kind_of}
use openrussh_client.Auth.{AuthConfig, from_config, iter}
use openrussh_client.Auth.Listed.{some_items, agents_of, locals_of, agent_stack}
use openrussh_client.Auth.Bare.{starts_private, bare_agents, from_config-bare}
use openrussh_client.Auth.Stack.{from_config-none_first}

-- The first bytes of these files are the same.
abbrev pub SameFirst : Files → Files → List Text → Type 0
SameFirst files others ids = (i : Text) → Mem i ids → files.read_40 i ≡ others.read_40 i

module _ (files others : Files) where
  check_pub_or_priv-same :
      (i : Text)
      → files.read_40 i ≡ others.read_40 i
      → check_pub_or_priv files i ≡ check_pub_or_priv others i
  check_pub_or_priv-same i h =
      check-kind_of files i
      ∙ ap (λ first. kind_of (unwrap_or_error first) (extension i)) h
      ∙ sym (check-kind_of others i)

  later :
      (i : Text) (ids : List Text) → SameFirst files others (i ∷ ids) → SameFirst files others ids
  later i ids same j m = same j (mem-cons_of_mem i m)

  agents_of-same :
      (a : Text) (cert : Option Text) (ids : List Text)
      → SameFirst files others ids
      → agents_of files a cert ids ≡ agents_of others a cert ids
  agents_of-same a cert [] same = refl
  agents_of-same a cert (i ∷ ids) same =
      rw
        (
          check_pub_or_priv-same i (same i mem-cons_self),
          agents_of-same a cert ids (later i ids same),
        )
        refl

  locals_of-same :
      (cert : Option Text) (ids : List Text)
      → SameFirst files others ids
      → locals_of files cert ids ≡ locals_of others cert ids
  locals_of-same cert [] same = refl
  locals_of-same cert (i ∷ ids) same =
      rw
        (
          check_pub_or_priv-same i (same i mem-cons_self),
          locals_of-same cert ids (later i ids same),
        )
        refl

  starts_private-same :
      (ids : List Text)
      → SameFirst files others ids
      → starts_private files ids ≡ starts_private others ids
  starts_private-same [] same = refl
  starts_private-same (i ∷ ids) same =
      rw
        (
          check_pub_or_priv-same i (same i mem-cons_self),
          starts_private-same ids (later i ids same),
        )
        refl

  module _ (cert : Option Text) (ids : List Text) (same : SameFirst files others ids) where
    agent_stack-same :
        (a : Option Text) (only : Bool)
        → agent_stack files a only cert ids ≡ agent_stack others a only cert ids
    agent_stack-same none only = refl
    agent_stack-same (some a) false = refl
    agent_stack-same (some a) true = agents_of-same a cert ids same

    bare_agents-same :
        (a : Option Text) (only : Bool)
        → bare_agents files a only cert ids ≡ bare_agents others a only cert ids
    bare_agents-same none only = refl
    bare_agents-same (some a) false = refl
    bare_agents-same (some a) true =
        rw (starts_private-same ids same, agents_of-same a cert ids same) refl

  -- The methods of a configuration depend on the first bytes of its identities alone.
  pub from_config-same :
      (auth : AuthConfig)
      → SameFirst files others (some_items auth.identities)
      → iter (from_config files auth) ≡ iter (from_config others auth)
  from_config-same auth same = elim (Bool-cases auth.includes_none) [
    | inl n ↦
        from_config-none_first files auth n
        ∙ rw
            (
              agent_stack-same auth.cert (some_items auth.identities) same auth.agent
                  auth.identities_only,
              locals_of-same auth.cert (some_items auth.identities) same,
            )
            (sym (from_config-none_first others auth n))
    | inr n ↦
        from_config-bare files auth n
        ∙ rw
            (
              bare_agents-same auth.cert (some_items auth.identities) same auth.agent
                  auth.identities_only,
              locals_of-same auth.cert (some_items auth.identities) same,
            )
            (sym (from_config-bare others auth n))
  ]
