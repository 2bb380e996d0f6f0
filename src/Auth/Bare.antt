-- ===== src/Auth/Bare.antt =====
-- The stack of a configuration that does not ask for `none` (src/auth.rs).
use openrussh_client.Prelude.{
  Text, List, [], ◌∷◌, ◌++◌, ◌≡◌, refl, sym, ◌∙◌, Bool, true, false, Option, none, some,
  if◌then◌else◌,
}
use openrussh_client.Auth.KeyFile.{
  KeyType, maybe_public, maybe_private, key_error, Files, check_pub_or_priv,
}
use openrussh_client.Auth.{
  full, AuthMethod, no_auth, local, agent, AuthConfig, state_of, iter, filtered_kind, Pairs,
  without_none_filtered, first_after_full, first_and_second, from_config_with_agent_filtered,
  local_methods, from_config_without_none, from_config, unwrap_or_default,
}
use openrussh_client.Auth.Stack.{
  pairs-agents, pairs-locals, local_methods-locals, without_none_loop-some, without_none_loop-none,
}
use openrussh_client.Auth.Listed.{
  agent_of, some_items, agents_of, locals_of, pairs, pair_agents, pair_locals,
}

abbrev pub tail {ℓ} : {A : Type ℓ} → List A → List A
tail [] = []
tail (x ∷ xs) = xs

abbrev pub or_none : List AuthMethod → List AuthMethod
or_none [] = no_auth ∷ []
or_none (m ∷ ms) = m ∷ ms

abbrev step_private : KeyType → Bool → Bool
step_private key_error rest = rest
step_private maybe_public rest = false
step_private maybe_private rest = true

module _ (files : Files) where
  -- The first identity whose file can be used looks private.
  abbrev pub starts_private : List Text → Bool
  starts_private [] = false
  starts_private (i ∷ ids) = step_private (check_pub_or_priv files i) (starts_private ids)

  -- As the code has it, the agent's method of the first identity is missing if that identity also has
  -- a local method.
  abbrev pub bare_agents : Option Text → Bool → Option Text → List Text → List AuthMethod
  bare_agents none only cert ids = []
  bare_agents (some a) false cert ids = agent a full ∷ []
  bare_agents (some a) true cert ids =
      if starts_private ids then tail (agents_of files a cert ids) else agents_of files a cert ids

pair_bare : Text → Pairs → List AuthMethod
pair_bare a [] = []
pair_bare a ((k, none) ∷ it) = agent a k ∷ pair_agents a it
pair_bare a ((k, some l) ∷ it) = pair_agents a it

or_none-after :
    (xs : List AuthMethod) (m : AuthMethod) (ys : List AuthMethod)
    → or_none (xs ++ m ∷ ys) ≡ xs ++ m ∷ ys
or_none-after [] m ys = refl
or_none-after (x ∷ xs) m ys = refl

filtered-bare :
    (a : Text) (ps : Pairs)
    → iter (unwrap_or_default (without_none_filtered a ps))
      ≡ or_none (pair_bare a ps ++ pair_locals ps)
unfolding without_none_filtered unwrap_or_default pair_bare iter
filtered-bare a [] = refl
filtered-bare a ((k, none) ∷ it) = without_none_loop-none a (agent a k) it
filtered-bare a ((k, some l) ∷ it) =
    without_none_loop-some a (agent a k) [] (some (local l ∷ [])) it
    ∙ sym (or_none-after (pair_agents a it) (local l) (pair_locals it))

pairs-bare :
    (files : Files) (a : Text) (cert : Option Text) (ids : List Text)
    → pair_bare a (pairs files cert ids) ≡ bare_agents files (some a) true cert ids
unfolding pairs from_config_with_agent_filtered filtered_kind pair_bare
pairs-bare files a cert [] = refl
pairs-bare files a cert (i ∷ ids) =
    step (check_pub_or_priv files i) cert _ _ (pairs-bare files a cert ids)
      (pairs-agents files a cert ids)
  where
    step :
        (t : KeyType) (c : Option Text) (it : Pairs) (rest : List AuthMethod)
        → pair_bare a it ≡ (if starts_private files ids then tail rest else rest)
        → pair_agents a it ≡ rest
        → pair_bare a (elim (filtered_kind t c i) [ none ↦ it | some p ↦ p ∷ it ]) ≡ (
            if step_private t (starts_private files ids)
            then tail (agent_of a c t i ++ rest)
            else agent_of a c t i ++ rest)
    step key_error c it rest g h = g
    step maybe_public none it rest g h = rw h refl
    step maybe_public (some c) it rest g h = rw h refl
    step maybe_private none it rest g h = h
    step maybe_private (some c) it rest g h = h

first_and_second-list :
    (ms : List AuthMethod) → iter (unwrap_or_default (first_and_second ms)) ≡ or_none ms
unfolding iter unwrap_or_default
first_and_second-list [] = refl
first_and_second-list (m ∷ []) = refl
first_and_second-list (m ∷ n ∷ ms) = refl

first_after_full-list :
    (m : AuthMethod) (ms : List AuthMethod) → iter (first_after_full m ms) ≡ m ∷ ms
unfolding iter
first_after_full-list m [] = refl
first_after_full-list m (n ∷ ms) = refl

without_none-list :
    (files : Files) (a : Option Text) (only : Bool) (ids : Option (List Text)) (cert : Option Text)
    → iter (unwrap_or_default (from_config_without_none files (state_of a only ids cert)))
      ≡ or_none
          (bare_agents files a only cert (some_items ids) ++ locals_of files cert (some_items ids))
unfolding from_config_without_none iter pairs unwrap_or_default
without_none-list files (some a) true (some ids) cert =
    filtered-bare a (pairs files cert ids)
    ∙ rw (pairs-bare files a cert ids, pairs-locals files cert ids) refl
without_none-list files (some a) true none cert = refl
without_none-list files (some a) false (some ids) cert =
    first_after_full-list (agent a full) (local_methods files ids cert)
    ∙ rw (local_methods-locals files cert ids) refl
without_none-list files (some a) false none cert = refl
without_none-list files none only (some ids) cert =
    first_and_second-list (local_methods files ids cert)
    ∙ rw (local_methods-locals files cert ids) refl
without_none-list files none only none cert = refl

-- The stack of a configuration that does not ask for `none`: the agent's methods and then the local
-- ones, or `none` alone where there are none of them. With `IdentitiesOnly`, the first usable identity
-- has no agent method if its file looks private.
pub from_config-bare :
    (files : Files) (auth : AuthConfig)
    → auth.includes_none ≡ false
    → iter (from_config files auth)
      ≡ or_none (
          bare_agents files auth.agent auth.identities_only auth.cert (some_items auth.identities)
          ++ locals_of files auth.cert (some_items auth.identities))
unfolding from_config
from_config-bare files auth h =
    rw h (without_none-list files auth.agent auth.identities_only auth.identities auth.cert)
