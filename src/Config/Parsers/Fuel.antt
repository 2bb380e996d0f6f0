-- ===== src/Config/Parsers/Fuel.antt =====
-- When the loop over `ProxyJump`s ends, and what `IdentityAgent none` gives (src/config.rs).
use openrussh_client.Prelude.{
  rev, ℕ, zero, suc, ◌<◌, Text, List, [], ◌∷◌, ◌++◌, Option, none, some, ◌≡◌, refl, arith,
}
use openrussh_client.Config.Target.{Target, parse}
use openrussh_client.Config.Paths.{Env}
use openrussh_client.Config.{Host}
use openrussh_client.Config.Parsers.{
  HostParams, Parsed, parsed, user_not_found, or_else, user_of, dest_of, parse_dest, host_of,
  parse_host, parse_bastion, jump_of, push_hosts, jump, continue, jump_loop, chain_of, config_of,
  parse_config,
}

abbrev pub Returns {ℓ} : {A : Type ℓ} → Option A → Type ℓ
Returns {A = A} o = (a : A) × (o ≡ some a)

module _ (env : Env) (query : Text → HostParams) (rank : Text → ℕ) where
  -- The rank of the first host of a `ProxyJump` is below the bound.
  abbrev pub IsBelow : ℕ → Option (List Text) → Type 0
  IsBelow n none = Unit
  IsBelow n (some []) = Unit
  IsBelow n (some (first ∷ rest)) = rank first < n

  -- The first host of each bastion's own `ProxyJump` has a smaller rank than the bastion.
  abbrev pub IsRanked : Type 0
  IsRanked = (b : Text) → IsBelow (rank b) (jump_of env query b)

  IsBelow-mono : (m n : ℕ) (j : Option (List Text)) → m < suc n → IsBelow m j → IsBelow n j
  IsBelow-mono m n none lt h = tt
  IsBelow-mono m n (some []) lt h = tt
  IsBelow-mono m n (some (f ∷ rest)) lt h = omega (arith, lt, h)

  continue-Returns :
      (p : Parsed (List Host)) (loop : List Host → Option (Parsed (Option (List Host))))
      → ((hosts : List Host) → Returns (loop hosts))
      → Returns (continue env query loop p)
  continue-Returns user_not_found loop h = (_, refl)
  continue-Returns (parsed hosts) loop h = h hosts

  loop-Returns :
      (fuel : ℕ) (bs : Option (List Host)) (j : Option (List Text))
      → IsRanked
      → IsBelow fuel j
      → Returns (jump_loop env query fuel bs j)
  unfolding jump_loop
  loop-Returns fuel bs none r h = (_, refl)
  loop-Returns fuel bs (some []) r h = (_, refl)
  loop-Returns zero bs (some (f ∷ rest)) r h = absurd (omega arith)
  loop-Returns (suc fuel) bs (some (f ∷ rest)) r h =
      continue-Returns (jump env query (or_else [] bs) f rest)
        (λ hosts. jump_loop env query fuel (some hosts) (jump_of env query f))
        (λ hosts.
          loop-Returns fuel (some hosts) (jump_of env query f) r
            (IsBelow-mono (rank f) fuel (jump_of env query f) h (r f)))

  -- Where the hosts can be ranked so that the first host of a bastion's `ProxyJump` is always below the
  -- bastion, the loop over the `ProxyJump`s ends: fuel above the rank of the first jump is enough for
  -- `parse_config` to return a chain or the error.
  pub parse_config-Returns :
      (fuel : ℕ) (target : Target)
      → IsRanked
      → IsBelow fuel (query target.host).proxy_jump
      → Returns (parse_config env query fuel target)
  unfolding parse_config
  parse_config-Returns fuel target r h = go (parse_host env (query target.host) target)
    where
      chained :
          (t : Host) {o : Option (Parsed (Option (List Host)))}
          → Returns o
          → Returns (chain_of env query t o)
      chained t (user_not_found, e) = rw e (_, refl)
      chained t (parsed bs, e) = rw e (_, refl)

      go : (p : Parsed Host) → Returns (config_of env query fuel (query target.host).proxy_jump p)
      go user_not_found = (_, refl)
      go (parsed t) = chained t (loop-Returns fuel none (query target.host).proxy_jump r h)

-- Where every host of a set has a `ProxyJump` whose first host is in the set again, the loop does not
-- end from a host of the set on.
module _ (env : Env) (query : Text → HostParams) (P : Text → Type 0) where
  abbrev pub Jumps : Option (List Text) → Type 0
  Jumps none = ⊥
  Jumps (some []) = ⊥
  Jumps (some (first ∷ rest)) = P first

  abbrev pub IsClosed : Type 0
  IsClosed = (b : Text) → P b → Jumps (jump_of env query b)

  module _ (me : Text) (named : env.username ≡ some me) where
    user-named : (u t : Option Text) → Returns (user_of env u t)
    user-named (some u) t = (u, refl)
    user-named none (some t) = (t, refl)
    user-named none none = (me, named)

    dest-parsed :
        (conf : HostParams) (name : Text) (port : ℕ) (u : Option Text)
        → Returns u
        → (h : Host) × (host_of env conf (dest_of env name port u) ≡ parsed h)
    dest-parsed conf name port u (user, e) = rw e (_, refl)

    host-parsed : (conf : HostParams) (t : Target) → (h : Host) × (parse_host env conf t ≡ parsed h)
    unfolding parse_host parse_dest
    host-parsed conf t =
        dest-parsed conf (or_else t.host conf.host_name) (or_else (or_else 22 t.port) conf.port)
          (user_of env conf.user t.user) (user-named conf.user t.user)

    bastion-parsed : (b : Text) → (h : Host) × (parse_bastion env query b ≡ parsed h)
    unfolding parse_bastion
    bastion-parsed b = host-parsed (query (parse b).host) (parse b)

    hosts-parsed :
        (bastions : List Text) (hs : List Host)
        → (r : List Host) × (push_hosts env query bastions (parsed hs) ≡ parsed r)
    unfolding push_hosts
    hosts-parsed [] hs = (hs, refl)
    hosts-parsed (b ∷ bs) hs =
        let (h, e) = bastion-parsed b in
        let (r, e2) = hosts-parsed bs (hs ++ h ∷ []) in (r, rw e e2)

    loop-none :
        (fuel : ℕ) (hs : Option (List Host)) (j : Option (List Text))
        → IsClosed
        → Jumps j
        → jump_loop env query fuel hs j ≡ none
    unfolding jump_loop jump
    loop-none fuel hs none c h = absurd h
    loop-none fuel hs (some []) c h = absurd h
    loop-none zero hs (some (f ∷ rest)) c h = refl
    loop-none (suc fuel) hs (some (f ∷ rest)) c h =
        let (r, e) = hosts-parsed (rev rest ++ f ∷ []) (or_else [] hs) in
        rw e (loop-none fuel (some r) (jump_of env query f) c (c f h))

    -- Where the user's name is known, each host of a set has a `ProxyJump` whose first host is in the
    -- set again, and so has the target, `parse_config` returns nothing whatever the fuel: its loop does
    -- not end.
    pub parse_config-none :
        (fuel : ℕ) (target : Target)
        → IsClosed
        → Jumps (query target.host).proxy_jump
        → parse_config env query fuel target ≡ none
    unfolding parse_config
    parse_config-none fuel target c h =
        let (t, e) = host-parsed (query target.host) target in
        rw (e, loop-none fuel none (query target.host).proxy_jump c h) refl
