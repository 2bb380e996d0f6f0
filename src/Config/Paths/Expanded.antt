-- ===== src/Config/Paths/Expanded.antt =====
-- What `expand_tilde` and `parse_agent` give, by the form of the text (src/config.rs).
use openrussh_client.Prelude.{
  ℕ, Text, codes, [], ◌∷◌, ◌++◌, ◌≡◌, ◌≢◌, refl, sym, ap, ◌∙◌, ◌⊎◌, inl, inr, Bool, true, false,
  ◌||◌, Option, none, some, All, arith, ◌==◌, Bool-cases, text_eq, text_eq_refl, text_eq_sound,
  if◌then◌else◌,
}
use openrussh_client.Config.Paths.{
  Env, segment, first_component, in_home_of, expand_tilde, normal, other, is_me, expand_first,
  expand_some, agent_from_env, agent_value, parse_agent,
}

true-false : true ≡ false → ⊥
true-false q = ground arith

text_ne : (s t : Text) → text_eq s t ≡ false → s ≢ t
text_ne s t h q = true-false (sym (text_eq_refl t) ∙ rw q at h)

abbrev pub IsInside : ℕ → Type 0
IsInside c = c ≢ b'/'

-- What comes behind a segment: nothing, or a separator and the rest.
pub data Behind : Text → Text → Type 0 where
  at_end : Behind [] []
  before_rest : (rest : Text) → Behind (b'/' ∷ rest) rest

abbrev Cut : Text → Text × Text → Type 0
Cut s p = (tail : Text) × All IsInside p.0 × Behind tail p.1 × (s ≡ p.0 ++ tail)

segment-Cut : (s : Text) → Cut s (segment s)
unfolding segment
segment-Cut [] = ([], tt, at_end, refl)
segment-Cut (x ∷ s) = elim (Bool-cases (x == b'/')) [
  | inl e ↦ rw e (b'/' ∷ s, tt, before_rest s, ap (λ y. y ∷ s) (is_slash e))
  | inr e ↦ let h = segment-Cut s in rw e (h.0, (inside e, h.1), h.2, ap (λ t. x ∷ t) h.3)
]
  where
    is_slash : (x == b'/') ≡ true → x ≡ b'/'
    is_slash e = ground arith

    inside : (x == b'/') ≡ false → IsInside x
    inside e = ground arith

module _ (env : Env) where
  -- The user behind a `~` is the one that runs the program: none is named, or the one of that name.
  abbrev pub IsMine : Text → Type 0
  IsMine user = (user ≡ []) ⊎ (env.username ≡ some user)

  -- A path that does not start with `~` is kept, and an empty one dropped. Behind `~` and the name
  -- up to the first separator, which may be empty, the rest is put into the home of the user that
  -- runs the program, if it is known; for another user there is no path.
  pub data Expanded : Text → Option Text → Type 0 where
    empty : Expanded [] none
    kept : (c : ℕ) (s : Text) → c ≢ b'~' → Expanded (c ∷ s) (some (c ∷ s))
    home :
        (s user tail rest : Text)
        → All IsInside user
        → Behind tail rest
        → s ≡ user ++ tail
        → IsMine user
        → Expanded (b'~' ∷ s) (in_home_of env env.home_dir rest)
    other_user :
        (s user tail rest : Text)
        → All IsInside user
        → Behind tail rest
        → s ≡ user ++ tail
        → (IsMine user → ⊥)
        → Expanded (b'~' ∷ s) none

  -- Whatever the first component of the path is, if its name starts with another character.
  kept_first :
      (c : ℕ) (s name rest : Text) (b : Bool)
      → c ≢ b'~'
      → expand_first env (c ∷ s) (if b then some (other, rest) else some (normal (c ∷ name), rest))
        ≡ some (c ∷ s)
  kept_first c s name rest true h = refl
  kept_first c s name rest false h = ground arith

  expand-kept : (c : ℕ) (s : Text) → c ≢ b'~' → expand_tilde env (c ∷ s) ≡ some (c ∷ s)
  unfolding expand_tilde first_component segment
  expand-kept c s h = elim (Bool-cases (c == b'/')) [
    | inl e ↦ rw e refl
    | inr e ↦ rw e (kept_first c s _ _ _ h)
  ]

  is_me-IsMine :
      (me : Option Text) (user : Text)
      → text_eq user [] || is_me env me user ≡ true
      → (user ≡ []) ⊎ (me ≡ some user)
  is_me-IsMine me [] h = inl refl
  is_me-IsMine none (c ∷ user) h = ground arith
  is_me-IsMine (some me) (c ∷ user) h = inr (ap some (sym (text_eq_sound (c ∷ user) me h)))

  not_me :
      (me : Option Text) (user : Text)
      → text_eq user [] || is_me env me user ≡ false
      → (user ≡ []) ⊎ (me ≡ some user)
      → ⊥
  not_me me [] h (inl e) = ground arith
  not_me me (c ∷ user) h (inl e) = cc
  not_me me [] h (inr e) = ground arith
  not_me me (c ∷ user) h (inr e) = true-false (sym (text_eq_refl (c ∷ user)) ∙ rw e at h)

  expand-home : (s : Text) → Expanded (b'~' ∷ s) (expand_tilde env (b'~' ∷ s))
  unfolding expand_tilde first_component segment
  expand-home s =
      let (tail, inside, behind, e) = segment-Cut s in
      elim (Bool-cases (text_eq (segment s).0 [] || is_me env env.username (segment s).0)) [
        | inl m ↦ rw m (
            home s (segment s).0 tail (segment s).1 inside behind e
              (is_me-IsMine env.username (segment s).0 m))
        | inr m ↦ rw m (
            other_user s (segment s).0 tail (segment s).1 inside behind e
              (not_me env.username (segment s).0 m))
      ]

  -- What `expand_tilde` gives, by the form of the path.
  pub expand_tilde-Expanded : (path : Text) → Expanded path (expand_tilde env path)
  unfolding expand_tilde first_component
  expand_tilde-Expanded [] = empty
  expand_tilde-Expanded (c ∷ s) = elim (Bool-cases (c == b'~')) [
    | inl e ↦ rw (tilde e) (expand-home s)
    | inr e ↦ rw (expand-kept c s (differs e)) (kept c s (differs e))
  ]
    where
      tilde : (c == b'~') ≡ true → c ≡ b'~'
      tilde e = ground arith

      differs : (c == b'~') ≡ false → c ≢ b'~'
      differs e = ground arith

  -- What a variable of the environment names.
  pub data AgentFrom : Text → Option Text → Type 0 where
    unset : (key : Text) → env.var_os key ≡ none → AgentFrom key none
    set :
        (key value : Text) (r : Option Text)
        → env.var_os key ≡ some value
        → Expanded value r
        → AgentFrom key r

  pub agent_from_env-AgentFrom : (key : Text) → AgentFrom key (agent_from_env env key)
  unfolding agent_from_env
  agent_from_env-AgentFrom key = from (env.var_os key) refl
    where
      from : (v : Option Text) → env.var_os key ≡ v → AgentFrom key (expand_some env v)
      from none h = unset key h
      from (some value) h = set key value (expand_tilde env value) h (expand_tilde-Expanded value)

  -- What a value of `IdentityAgent` asks for.
  pub data Asked : Text → Option Text → Type 0 where
    no_agent : Asked (codes "none") none
    variable : (key : Text) (r : Option Text) → AgentFrom key r → Asked (b'$' ∷ key) r
    agent_env :
        (r : Option Text) → AgentFrom (codes "SSH_AUTH_SOCK") r → Asked (codes "SSH_AUTH_SOCK") r
    path :
        (value : Text) (r : Option Text)
        → value ≢ codes "none"
        → value ≢ codes "SSH_AUTH_SOCK"
        → ((key : Text) → value ≢ b'$' ∷ key)
        → Expanded value r
        → Asked value r

  value-Asked :
      (value : Text)
      → value ≢ codes "none"
      → value ≢ codes "SSH_AUTH_SOCK"
      → Asked value (agent_value env value)
  unfolding expand_tilde first_component
  value-Asked [] n a = path [] none n a (λ key q. cc) empty
  value-Asked (c ∷ key) n a = elim (Bool-cases (c == b'$')) [
    | inl e ↦
        rw (e, dollar e) (variable key (agent_from_env env key) (agent_from_env-AgentFrom key))
    | inr e ↦ rw e (
        path (c ∷ key) (expand_tilde env (c ∷ key)) n a (plain e) (expand_tilde-Expanded (c ∷ key)))
  ]
    where
      dollar : (c == b'$') ≡ true → c ≡ b'$'
      dollar e = ground arith

      plain : (c == b'$') ≡ false → (k : Text) → c ∷ key ≢ b'$' ∷ k
      plain e k q = ground arith

  pub parse_agent-Asked : (value : Text) → Asked value (parse_agent env value)
  unfolding parse_agent
  parse_agent-Asked value = elim (Bool-cases (text_eq value (codes "none"))) [
    | inl e ↦ rw (e, text_eq_sound value (codes "none") e) no_agent
    | inr e ↦ elim (Bool-cases (text_eq value (codes "SSH_AUTH_SOCK"))) [
      | inl d ↦
          rw (e, d, text_eq_sound value (codes "SSH_AUTH_SOCK") d)
            (agent_env (agent_from_env env (codes "SSH_AUTH_SOCK"))
              (agent_from_env-AgentFrom (codes "SSH_AUTH_SOCK")))
      | inr d ↦ rw (e, d) (value-Asked value (text_ne value _ e) (text_ne value _ d))
    ]
  ]
