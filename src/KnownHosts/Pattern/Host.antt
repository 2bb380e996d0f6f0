-- ===== src/KnownHosts/Pattern/Host.antt =====
-- The host that the handler compares (src/known_hosts.rs).
use openrussh_client.Prelude.{
  ℕ, Text, codes, [], ◌∷◌, ◌++◌, append_assoc, append-nil, ◌≡◌, refl, sym, ap, ◌∙◌, false, ◌==◌,
  if◌then◌else◌, All,
}
use openrussh_client.KnownHosts.Pattern.{
  trim_start_matches, trim_end_matches, before_port, starts_with_colon, to_ascii_lowercase,
  normalize_host,
}

-- Neither bracket.
abbrev pub IsPlain : ℕ → Type 0
IsPlain c = ((c == b'[') ≡ false) × ((c == b']') ≡ false)

before_port-plain : (h p : Text) → All IsPlain h → before_port (h ++ codes "]:" ++ p) ≡ h
unfolding before_port starts_with_colon
before_port-plain [] p a = refl
before_port-plain (x ∷ h) p ((l, r), a) = rw (r, before_port-plain h p a) refl

before_port-none : (h : Text) → All IsPlain h → before_port (h ++ codes "]") ≡ h ++ codes "]"
unfolding before_port starts_with_colon
before_port-none [] a = refl
before_port-none (x ∷ h) ((l, r), a) = rw (r, before_port-none h a) refl

before_port_self : (h : Text) → All IsPlain h → before_port h ≡ h
unfolding before_port starts_with_colon
before_port_self [] a = refl
before_port_self (x ∷ h) ((l, r), a) = rw (r, before_port_self h a) refl

last_kept :
    (x : ℕ) (h : Text)
    → (x == b']') ≡ false
    → (elim h as (λ t. Text) [ [] ↦ (if x == b']' then [] else x ∷ []) | y ∷ t ↦ x ∷ y ∷ t ])
      ≡ x ∷ h
last_kept x [] r = rw r refl
last_kept x (y ∷ t) r = refl

trim_end-plain : (h : Text) → All IsPlain h → trim_end_matches b']' h ≡ h
unfolding trim_end_matches
trim_end-plain [] a = refl
trim_end-plain (x ∷ h) ((l, r), a) = rw (trim_end-plain h a) (last_kept x h r)

trim_end-bracket : (h : Text) → All IsPlain h → trim_end_matches b']' (h ++ codes "]") ≡ h
unfolding trim_end_matches
trim_end-bracket [] a = refl
trim_end-bracket (x ∷ h) ((l, r), a) = rw (trim_end-bracket h a) (last_kept x h r)

trim_start-plain :
    (h t : Text)
    → All IsPlain h
    → trim_start_matches b'[' t ≡ t
    → trim_start_matches b'[' (h ++ t) ≡ h ++ t
unfolding trim_start_matches
trim_start-plain [] t a e = e
trim_start-plain (x ∷ h) t ((l, r), a) e = rw l refl

before_port-empty : before_port [] ≡ []
unfolding before_port
before_port-empty = refl

-- A host name without brackets is kept in lower case, whether it is given as `host`, as `[host]` or
-- as `[host]:port`.
pub normalize_host-bracketed :
    (h p : Text)
    → All IsPlain h
    → (normalize_host h ≡ to_ascii_lowercase h)
      × (normalize_host (codes "[" ++ (h ++ codes "]")) ≡ to_ascii_lowercase h)
      × (normalize_host (codes "[" ++ (h ++ (codes "]:" ++ p))) ≡ to_ascii_lowercase h)
unfolding normalize_host trim_start_matches
normalize_host-bracketed h p a = (
  rw (start_self, before_port_self h a, trim_end-plain h a) refl,
  rw (trim_start-plain h (codes "]") a refl, before_port-none h a, trim_end-bracket h a) refl,
  rw (trim_start-plain h (codes "]:" ++ p) a refl, with_port, trim_end-plain h a) refl,
)
  where
    start_self : trim_start_matches b'[' h ≡ h
    start_self =
        ap (λ t. trim_start_matches b'[' t) (sym (append-nil h))
        ∙ trim_start-plain h [] a refl
        ∙ append-nil h

    with_port : before_port (h ++ (codes "]:" ++ p)) ≡ h
    with_port = ap before_port (sym (append_assoc h (codes "]:") p)) ∙ before_port-plain h p a
