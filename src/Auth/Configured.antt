-- ===== src/Auth/Configured.antt =====
-- Every method of a stack is one that its configuration allows (src/auth.rs).
use openrussh_client.Prelude.{
  Text, List, [], ◌∷◌, ◌++◌, ◌≡◌, refl, inl, inr, Bool, true, false, Option, none, some, All,
  Bool-cases, if◌then◌else◌,
}
use mathlib.Core.List.{Mem, mem-cons_self, mem-cons_of_mem}
use openrussh_client.Auth.KeyFile.{
  KeyType, maybe_public, maybe_private, key_error, Files, check_pub_or_priv,
}
use openrussh_client.Auth.{
  AuthLocalKind, local_priv, local_cert, AuthAgentKind, full, agent_priv, agent_pub,
  agent_cert_priv, agent_cert_pub, AuthMethod, no_auth, local, agent, AuthConfig, iter, from_config,
}
use openrussh_client.Auth.Stack.{from_config-none_first}
use openrussh_client.Auth.Listed.{agent_of, local_of, some_items, agents_of, locals_of, agent_stack}
use openrussh_client.Auth.Bare.{tail, or_none, starts_private, bare_agents, from_config-bare}

module _ (P : AuthMethod → Type 0) where
  All-append : (xs ys : List AuthMethod) → All P xs → All P ys → All P (xs ++ ys)
  All-append [] ys p q = q
  All-append (x ∷ xs) ys (p, ps) q = (p, All-append xs ys ps q)

  All-tail : (xs : List AuthMethod) → All P xs → All P (tail xs)
  All-tail [] p = p
  All-tail (x ∷ xs) (p, ps) = ps

  All-or_none : (xs : List AuthMethod) → P no_auth → All P xs → All P (or_none xs)
  All-or_none [] n p = (n, tt)
  All-or_none (x ∷ xs) n p = p

module _ (files : Files) (auth : AuthConfig) where
  -- One of the configured identities, whose file looks like this, used with this certificate or
  -- without one.
  abbrev pub IsIdentity : Text → KeyType → Option Text → Type 0
  IsIdentity i t cert =
      Mem i (some_items auth.identities) × (check_pub_or_priv files i ≡ t) × (auth.cert ≡ cert)

  abbrev pub IsAllowedLocal : AuthLocalKind → Type 0
  IsAllowedLocal (local_priv i) = IsIdentity i maybe_private none
  IsAllowedLocal (local_cert c i) = IsIdentity i maybe_private (some c)

  -- All identities of the agent only without `IdentitiesOnly`, and single ones only with it.
  abbrev pub IsAllowedAgent : AuthAgentKind → Type 0
  IsAllowedAgent full = auth.identities_only ≡ false
  IsAllowedAgent (agent_priv i) = (auth.identities_only ≡ true) × IsIdentity i maybe_private none
  IsAllowedAgent (agent_pub i) = (auth.identities_only ≡ true) × IsIdentity i maybe_public none
  IsAllowedAgent (agent_cert_priv c i) =
      (auth.identities_only ≡ true) × IsIdentity i maybe_private (some c)
  IsAllowedAgent (agent_cert_pub c i) =
      (auth.identities_only ≡ true) × IsIdentity i maybe_public (some c)

  abbrev pub IsAllowed : AuthMethod → Type 0
  IsAllowed no_auth = Unit
  IsAllowed (local k) = IsAllowedLocal k
  IsAllowed (agent a k) = (auth.agent ≡ some a) × IsAllowedAgent k

  -- The identities of a list are configured.
  AreConfigured : List Text → Type 0
  AreConfigured ids = (i : Text) → Mem i ids → Mem i (some_items auth.identities)

  local_of-IsAllowed :
      (cert : Option Text) (t : KeyType) (i : Text)
      → Mem i (some_items auth.identities)
      → check_pub_or_priv files i ≡ t
      → auth.cert ≡ cert
      → All IsAllowed (local_of cert t i)
  local_of-IsAllowed cert key_error i m c h = tt
  local_of-IsAllowed cert maybe_public i m c h = tt
  local_of-IsAllowed none maybe_private i m c h = ((m, c, h), tt)
  local_of-IsAllowed (some k) maybe_private i m c h = ((m, c, h), tt)

  agent_of-IsAllowed :
      (a : Text) (cert : Option Text) (t : KeyType) (i : Text)
      → auth.agent ≡ some a
      → auth.identities_only ≡ true
      → Mem i (some_items auth.identities)
      → check_pub_or_priv files i ≡ t
      → auth.cert ≡ cert
      → All IsAllowed (agent_of a cert t i)
  agent_of-IsAllowed a cert key_error i s o m c h = tt
  agent_of-IsAllowed a none maybe_public i s o m c h = ((s, (o, (m, c, h))), tt)
  agent_of-IsAllowed a none maybe_private i s o m c h = ((s, (o, (m, c, h))), tt)
  agent_of-IsAllowed a (some k) maybe_public i s o m c h = ((s, (o, (m, c, h))), tt)
  agent_of-IsAllowed a (some k) maybe_private i s o m c h = ((s, (o, (m, c, h))), tt)

  locals_of-IsAllowed :
      (ids : List Text) → AreConfigured ids → All IsAllowed (locals_of files auth.cert ids)
  unfolding AreConfigured
  locals_of-IsAllowed [] h = tt
  locals_of-IsAllowed (i ∷ ids) h =
      All-append IsAllowed (local_of auth.cert (check_pub_or_priv files i) i)
        (locals_of files auth.cert ids)
        (local_of-IsAllowed auth.cert (check_pub_or_priv files i) i (h i mem-cons_self) refl refl)
        (locals_of-IsAllowed ids (λ j m. h j (mem-cons_of_mem i m)))

  agents_of-IsAllowed :
      (a : Text) (ids : List Text)
      → auth.agent ≡ some a
      → auth.identities_only ≡ true
      → AreConfigured ids
      → All IsAllowed (agents_of files a auth.cert ids)
  unfolding AreConfigured
  agents_of-IsAllowed a [] s o h = tt
  agents_of-IsAllowed a (i ∷ ids) s o h =
      All-append IsAllowed (agent_of a auth.cert (check_pub_or_priv files i) i)
        (agents_of files a auth.cert ids)
        (agent_of-IsAllowed a auth.cert (check_pub_or_priv files i) i s o (h i mem-cons_self) refl
          refl)
        (agents_of-IsAllowed a ids s o (λ j m. h j (mem-cons_of_mem i m)))

  stack-IsAllowed :
      (a : Option Text) (only : Bool)
      → auth.agent ≡ a
      → auth.identities_only ≡ only
      → All IsAllowed (agent_stack files a only auth.cert (some_items auth.identities))
        × All IsAllowed (bare_agents files a only auth.cert (some_items auth.identities))
  unfolding AreConfigured
  stack-IsAllowed none only s o = (tt, tt)
  stack-IsAllowed (some a) false s o = (((s, o), tt), ((s, o), tt))
  stack-IsAllowed (some a) true s o =
      let all_of = agents_of-IsAllowed a (some_items auth.identities) s o (λ i m. m) in
      (all_of, shorter (starts_private files (some_items auth.identities)) all_of)
    where
      shorter :
          (b : Bool)
          → All IsAllowed (agents_of files a auth.cert (some_items auth.identities))
          → All IsAllowed (
              if b
              then tail (agents_of files a auth.cert (some_items auth.identities))
              else agents_of files a auth.cert (some_items auth.identities))
      shorter true p =
          All-tail IsAllowed (agents_of files a auth.cert (some_items auth.identities)) p
      shorter false p = p

  -- Whatever the configuration and the files: each method of the stack is `none`, or uses a
  -- configured identity with the configured certificate, if there is one, as the look of the
  -- identity's file has it; an agent is the configured one, and is asked for all of its identities
  -- only without `IdentitiesOnly`.
  pub from_config-IsAllowed : All IsAllowed (iter (from_config files auth))
  unfolding AreConfigured
  from_config-IsAllowed =
      let stacks = stack-IsAllowed auth.agent auth.identities_only refl refl in
      let locals = locals_of-IsAllowed (some_items auth.identities) (λ i m. m) in
      elim (Bool-cases auth.includes_none) [
        | inl n ↦
            rw (from_config-none_first files auth n) (tt, All-append IsAllowed _ _ stacks.0 locals)
        | inr n ↦
            rw (from_config-bare files auth n)
              (All-or_none IsAllowed _ tt (All-append IsAllowed _ _ stacks.1 locals))
      ]
