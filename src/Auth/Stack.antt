-- ===== src/Auth/Stack.antt =====
-- The stack of methods that a configuration gives, as one list (src/auth.rs).
use openrussh_client.Prelude.{
  map_some, Text, List, [], ◌∷◌, ◌++◌, append_assoc, append-nil, ◌≡◌, refl, sym, ◌∙◌, Bool, true,
  false, Option, none, some,
}
use openrussh_client.Auth.KeyFile.{
  KeyType, maybe_public, maybe_private, key_error, Files, check_pub_or_priv,
}
use openrussh_client.Auth.{
  AuthLocalKind, AuthMethod, no_auth, local, agent, AuthConfig, state_of, iter, local_kind,
  filtered_kind, push_local, extend_some, Pairs, with_none_loop, without_none_loop, first_with_none,
  from_config_no_agent, from_config_with_agent_filtered, local_methods, from_config_with_none,
  from_config,
}
use openrussh_client.Auth.Listed.{
  agent_of, local_of, some_items, agents_of, locals_of, agent_stack, pairs, pair_agents, local_list,
  pair_locals, some_methods,
}

push_local-list :
    (l : Option AuthLocalKind) (ms : Option (List AuthMethod))
    → some_methods (push_local l ms) ≡ some_methods ms ++ local_list l
push_local-list none ms = sym (append-nil (some_methods ms))
push_local-list (some k) none = refl
push_local-list (some k) (some ms) = refl

extend_some-list :
    (ms : List AuthMethod) (ls : Option (List AuthMethod))
    → extend_some ms ls ≡ ms ++ some_methods ls
extend_some-list ms none = sym (append-nil ms)
extend_some-list ms (some ls) = refl

regroup :
    (x y z u v w : List AuthMethod)
    → ((x ++ y) ++ z) ++ ((u ++ v) ++ w) ≡ (x ++ (y ++ z)) ++ (u ++ (v ++ w))
regroup x y z u v w = rw (append_assoc x y z, append_assoc u v w) refl

with_none_loop-pairs :
    (a : Text) (ms : List AuthMethod) (ls : Option (List AuthMethod)) (it : Pairs)
    → with_none_loop a ms ls it ≡ (ms ++ pair_agents a it) ++ (some_methods ls ++ pair_locals it)
unfolding with_none_loop
with_none_loop-pairs a ms ls [] =
    rw (append-nil ms, append-nil (some_methods ls)) (extend_some-list ms ls)
with_none_loop-pairs a ms ls ((k, l) ∷ it) =
    rw (with_none_loop-pairs a (ms ++ agent a k ∷ []) (push_local l ls) it, push_local-list l ls)
      (regroup ms (agent a k ∷ []) (pair_agents a it) (some_methods ls) (local_list l)
        (pair_locals it))

pub without_none_loop-some :
    (a : Text) (first : AuthMethod) (ms : List AuthMethod) (ls : Option (List AuthMethod))
    (it : Pairs)
    → iter (without_none_loop a first (some ms) ls it)
      ≡ (ms ++ pair_agents a it) ++ (some_methods ls ++ pair_locals it)
unfolding without_none_loop iter
without_none_loop-some a first ms ls [] =
    rw (append-nil ms, append-nil (some_methods ls)) (extend_some-list ms ls)
without_none_loop-some a first ms ls ((k, l) ∷ it) =
    rw
      (
        without_none_loop-some a first (ms ++ agent a k ∷ []) (push_local l ls) it,
        push_local-list l ls,
      )
      (regroup ms (agent a k ∷ []) (pair_agents a it) (some_methods ls) (local_list l)
        (pair_locals it))

pub without_none_loop-none :
    (a : Text) (first : AuthMethod) (it : Pairs)
    → iter (without_none_loop a first none none it) ≡ (first ∷ pair_agents a it) ++ pair_locals it
unfolding without_none_loop iter
without_none_loop-none a first [] = refl
without_none_loop-none a first ((k, l) ∷ it) =
    without_none_loop-some a first (first ∷ agent a k ∷ []) (push_local l none) it
    ∙ rw (push_local-list l none) refl

pub pairs-agents :
    (files : Files) (a : Text) (cert : Option Text) (ids : List Text)
    → pair_agents a (pairs files cert ids) ≡ agents_of files a cert ids
unfolding pairs from_config_with_agent_filtered filtered_kind
pairs-agents files a cert [] = refl
pairs-agents files a cert (i ∷ ids) =
    step (check_pub_or_priv files i) cert _ _ (pairs-agents files a cert ids)
  where
    step :
        (t : KeyType) (c : Option Text) (it : Pairs) (rest : List AuthMethod)
        → pair_agents a it ≡ rest
        → pair_agents a (elim (filtered_kind t c i) [ none ↦ it | some p ↦ p ∷ it ])
          ≡ agent_of a c t i ++ rest
    step key_error c it rest h = h
    step maybe_public none it rest h = rw h refl
    step maybe_public (some c) it rest h = rw h refl
    step maybe_private none it rest h = rw h refl
    step maybe_private (some c) it rest h = rw h refl

pub pairs-locals :
    (files : Files) (cert : Option Text) (ids : List Text)
    → pair_locals (pairs files cert ids) ≡ locals_of files cert ids
unfolding pairs from_config_with_agent_filtered filtered_kind
pairs-locals files cert [] = refl
pairs-locals files cert (i ∷ ids) =
    step (check_pub_or_priv files i) cert _ _ (pairs-locals files cert ids)
  where
    step :
        (t : KeyType) (c : Option Text) (it : Pairs) (rest : List AuthMethod)
        → pair_locals it ≡ rest
        → pair_locals (elim (filtered_kind t c i) [ none ↦ it | some p ↦ p ∷ it ])
          ≡ local_of c t i ++ rest
    step key_error c it rest h = h
    step maybe_public none it rest h = h
    step maybe_public (some c) it rest h = h
    step maybe_private none it rest h = rw h refl
    step maybe_private (some c) it rest h = rw h refl

pub local_methods-locals :
    (files : Files) (cert : Option Text) (ids : List Text)
    → local_methods files ids cert ≡ locals_of files cert ids
unfolding from_config_no_agent local_kind
local_methods-locals files cert [] = refl
local_methods-locals files cert (i ∷ ids) =
    step (check_pub_or_priv files i) cert _ _ (local_methods-locals files cert ids)
  where
    step :
        (t : KeyType) (c : Option Text) (it rest : List AuthMethod)
        → it ≡ rest
        → (elim (map_some local (local_kind t c i)) [ none ↦ it | some p ↦ p ∷ it ])
          ≡ local_of c t i ++ rest
    step key_error c it rest h = h
    step maybe_public c it rest h = h
    step maybe_private none it rest h = rw h refl
    step maybe_private (some c) it rest h = rw h refl

first_with_none-list : (ms : List AuthMethod) → iter (first_with_none ms) ≡ no_auth ∷ ms
unfolding iter
first_with_none-list [] = refl
first_with_none-list (m ∷ ms) = refl

with_none-list :
    (files : Files) (a : Option Text) (only : Bool) (ids : Option (List Text)) (cert : Option Text)
    → iter (from_config_with_none files (state_of a only ids cert))
      ≡ no_auth
        ∷ (agent_stack files a only cert (some_items ids) ++ locals_of files cert (some_items ids))
unfolding from_config_with_none iter pairs
with_none-list files (some a) true (some ids) cert =
    with_none_loop-pairs a (no_auth ∷ []) none (pairs files cert ids)
    ∙ rw (pairs-agents files a cert ids, pairs-locals files cert ids) refl
with_none-list files (some a) true none cert = refl
with_none-list files (some a) false (some ids) cert = rw (local_methods-locals files cert ids) refl
with_none-list files (some a) false none cert = refl
with_none-list files none only (some ids) cert =
    first_with_none-list (local_methods files ids cert)
    ∙ rw (local_methods-locals files cert ids) refl
with_none-list files none only none cert = refl

-- The stack of a configuration that asks for `none`: the method `none`, then the agent's methods, then
-- the local ones, which are the identities whose files look private, all in the order of the
-- identities.
pub from_config-none_first :
    (files : Files) (auth : AuthConfig)
    → auth.includes_none ≡ true
    → iter (from_config files auth)
      ≡ no_auth
        ∷ (agent_stack files auth.agent auth.identities_only auth.cert (some_items auth.identities)
            ++ locals_of files auth.cert (some_items auth.identities))
unfolding from_config
from_config-none_first files auth h =
    rw h (with_none-list files auth.agent auth.identities_only auth.identities auth.cert)
