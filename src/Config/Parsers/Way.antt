-- ===== src/Config/Parsers/Way.antt =====
-- Which hosts `parse_config` puts into a chain (src/config.rs).
use openrussh_client.Prelude.{
  rev, rev-append, rev-rev, map-append, map-rev, ℕ, zero, suc, Text, List, [], ◌∷◌, ◌++◌,
  append_assoc, append-nil, map, ◌≡◌, refl, sym, ap, ◌∙◌, ◌⊎◌, inl, inr, Option, none, some,
}
use openrussh_client.Config.{Host, Chain}
use openrussh_client.Config.Target.{Target}
use openrussh_client.Config.Paths.{Env}
use openrussh_client.Config.Parsers.{
  Parsed, user_not_found, parsed, HostParams, or_else, chain_of, parse_host, parse_bastion, jump_of,
  push_hosts, jump, jump_loop, parse_config,
}
use openrussh_client.Config.Route.{route, some_hosts}

Parsed-cases : {A : Type 0} (p : Parsed A) → (p ≡ user_not_found) ⊎ ((a : A) × (p ≡ parsed a))
Parsed-cases user_not_found = inl refl
Parsed-cases (parsed a) = inr (a, refl)

parsed_or : {A : Type 0} → A → Parsed A → A
parsed_or a user_not_found = a
parsed_or a (parsed b) = b

parsed_inj : {A : Type 0} (a b : A) → parsed a ≡ parsed b → a ≡ b
unfolding parsed_or
parsed_inj a b e = ap (parsed_or a) e

not_found_clash : {A : Type 0} (a : A) → ◌≡◌ {A = Parsed A} user_not_found (parsed a) → ⊥
not_found_clash a q = cc

some_not_found_clash :
    {A : Type 0} (a : A) → ◌≡◌ {A = Option (Parsed A)} (some user_not_found) (some (parsed a)) → ⊥
some_not_found_clash a q = cc

none_clash : {A : Type 0} (a : A) → ◌≡◌ {A = Option (Parsed A)} none (some (parsed a)) → ⊥
none_clash a q = cc

module _ (env : Env) (query : Text → HostParams) where
  -- The names of the bastions on the way that a `ProxyJump` asks for, from the first to connect to:
  -- its own in order, and before them the way to the first of them. The `ProxyJump`s of the others
  -- are not looked at.
  pub data Way : Option (List Text) → List Text → Type 0 where
    no_jump : Way none []
    empty_jump : Way (some []) []
    jump_over :
        (first : Text)
        → (rest : List Text) → (way : List Text) → Way (jump_of env query first) way
        → Way (some (first ∷ rest)) (way ++ first ∷ rest)

  -- The hosts are those of the names, in order.
  abbrev pub Resolve : List Text → List Host → Type 0
  Resolve names hosts = map (parse_bastion env query) names ≡ map parsed hosts

  Resolve-rev :
      (names : List Text) (hosts : List Host)
      → Resolve (rev names) hosts
      → Resolve names (rev hosts)
  Resolve-rev names hosts h =
      sym (rev-rev (map (parse_bastion env query) names))
      ∙ ap rev (sym (map-rev (parse_bastion env query) names) ∙ h)
      ∙ sym (map-rev parsed hosts)

  Resolve-append :
      (ns ms : List Text) (hs gs : List Host)
      → Resolve ns hs
      → Resolve ms gs
      → Resolve (ns ++ ms) (hs ++ gs)
  Resolve-append ns ms hs gs h g =
      map-append (parse_bastion env query) ns ms ∙ rw (h, g) (sym (map-append parsed hs gs))

  push_hosts-not_found :
      (names : List Text) → push_hosts env query names user_not_found ≡ user_not_found
  unfolding push_hosts
  push_hosts-not_found [] = refl
  push_hosts-not_found (b ∷ names) = refl

  push_hosts-Resolve :
      (names : List Text) (bs out : List Host)
      → push_hosts env query names (parsed bs) ≡ parsed out
      → (hosts : List Host) × Resolve names hosts × (out ≡ bs ++ hosts)
  unfolding push_hosts
  push_hosts-Resolve [] bs out e = ([], refl, sym (parsed_inj bs out e) ∙ sym (append-nil bs))
  push_hosts-Resolve (b ∷ names) bs out e = elim (Parsed-cases (parse_bastion env query b)) [
    | inl n ↦ absurd (not_found_clash out (sym (push_hosts-not_found names) ∙ rw n at e))
    | inr (h, p) ↦
        let rest = push_hosts-Resolve names (bs ++ h ∷ []) out (rw p at e) in
        (h ∷ rest.0, rw (p, rest.1) refl, rest.2 ∙ append_assoc bs (h ∷ []) rest.0)
  ]

  jump-Resolve :
      (bs out : List Host) (first : Text) (rest : List Text)
      → jump env query bs first rest ≡ parsed out
      → (hosts : List Host) × Resolve (first ∷ rest) hosts × (out ≡ bs ++ rev hosts)
  unfolding jump
  jump-Resolve bs out first rest e =
      let pushed = push_hosts-Resolve (rev (first ∷ rest)) bs out e in
      (
        rev pushed.0,
        Resolve-rev (first ∷ rest) pushed.0 pushed.1,
        pushed.2 ∙ ap (λ l. bs ++ l) (sym (rev-rev pushed.0)),
      )

  or_else-some_hosts : (bs : Option (List Host)) → or_else [] bs ≡ some_hosts bs
  or_else-some_hosts none = refl
  or_else-some_hosts (some bs) = refl

  out_of : Option (List Host) → Option (Parsed (Option (List Host))) → Option (List Host)
  out_of o none = o
  out_of o (some user_not_found) = o
  out_of o (some (parsed bs)) = bs

  done :
      (bs out : Option (List Host))
      → some (parsed bs) ≡ some (parsed out)
      → some_hosts out ≡ some_hosts bs ++ []
  unfolding out_of
  done bs out e = ap (λ o. some_hosts (out_of bs o)) (sym e) ∙ sym (append-nil (some_hosts bs))

  -- What the loop adds is the way, the host to connect to last in front.
  Added : Option (List Host) → Option (List Text) → Option (List Host) → Type 0
  Added bs next out =
      (names : List Text) × (hosts : List Host) × Way next names
      × Resolve names hosts
      × (some_hosts out ≡ some_hosts bs ++ rev hosts)

  jump_loop-Added :
      (fuel : ℕ) (bs : Option (List Host)) (next : Option (List Text)) (out : Option (List Host))
      → jump_loop env query fuel bs next ≡ some (parsed out)
      → Added bs next out
  unfolding jump_loop Added
  jump_loop-Added fuel bs none out e = ([], [], no_jump, refl, done bs out e)
  jump_loop-Added fuel bs (some []) out e = ([], [], empty_jump, refl, done bs out e)
  jump_loop-Added zero bs (some (first ∷ rest)) out e = absurd (none_clash out e)
  jump_loop-Added (suc fuel) bs (some (first ∷ rest)) out e =
      elim (Parsed-cases (jump env query (or_else [] bs) first rest)) [
        | inl n ↦ absurd (some_not_found_clash out (rw n at e))
        | inr (hosts, p) ↦
            let here = jump-Resolve (or_else [] bs) hosts first rest p in
            let behind =
              jump_loop-Added fuel (some hosts) (jump_of env query first) out (rw p at e) in
            (
              behind.0 ++ first ∷ rest,
              behind.1 ++ here.0,
              jump_over first rest behind.0 behind.2,
              Resolve-append behind.0 (first ∷ rest) behind.1 here.0 behind.3 here.1,
              behind.4
                  ∙ ap (λ l. l ++ rev behind.1)
                      (here.2 ∙ ap (λ l. l ++ rev here.0) (or_else-some_hosts bs))
                  ∙ append_assoc (some_hosts bs) (rev here.0) (rev behind.1)
                  ∙ ap (λ l. some_hosts bs ++ l) (sym (rev-append behind.1 here.0)),
            )
      ]

  -- A chain, with a way to its target: the hosts of the way's names, then the target as it was
  -- asked for.
  abbrev pub Follows : Target → Chain → Type 0
  Follows target c =
      (names : List Text) × (hosts : List Host) × Way (query target.host).proxy_jump names
      × Resolve names hosts
      × (parse_host env (query target.host) target ≡ parsed c.target)
      × (route c ≡ hosts ++ c.target ∷ [])

  chain_at : Chain → Option (Parsed Chain) → Chain
  chain_at c none = c
  chain_at c (some user_not_found) = c
  chain_at c (some (parsed d)) = d

  chain_of-Follows :
      (target : Target) (host : Host) (c : Chain) (r : Option (Parsed (Option (List Host))))
      → parse_host env (query target.host) target ≡ parsed host
      → ((out : Option (List Host))
          → r ≡ some (parsed out)
          → Added none (query target.host).proxy_jump out)
      → chain_of env query host r ≡ some (parsed c)
      → Follows target c
  unfolding Added chain_at
  chain_of-Follows target host c none h added e = absurd (none_clash c e)
  chain_of-Follows target host c (some user_not_found) h added e = absurd (some_not_found_clash c e)
  chain_of-Follows target host c (some (parsed out)) h added e =
      let a = added out refl in
      let same : ◌≡◌ {A = Chain} (record { target = host; bastions = out }) c = ap (chain_at c) e in
      rw⁻¹ same (a.0, a.1, a.2, a.3, h, ap (λ l. l ++ host ∷ []) (ap rev a.4 ∙ rev-rev a.1))

  -- The chain that a query gives goes from the first host of the way that the `ProxyJump`s ask for
  -- to the target, in order; each host of the way is that of its name, and the target is the one
  -- that was asked for.
  pub parse_config-Follows :
      (fuel : ℕ) (target : Target) (c : Chain)
      → parse_config env query fuel target ≡ some (parsed c)
      → Follows target c
  unfolding parse_config
  parse_config-Follows fuel target c e =
      elim (Parsed-cases (parse_host env (query target.host) target)) [
        | inl n ↦ absurd (some_not_found_clash c (rw n at e))
        | inr (host, p) ↦
            chain_of-Follows target host c
              (jump_loop env query fuel none (query target.host).proxy_jump) p
              (λ out. jump_loop-Added fuel none (query target.host).proxy_jump out) (rw p at e)
      ]
