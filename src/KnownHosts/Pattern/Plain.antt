-- ===== src/KnownHosts/Pattern/Plain.antt =====
-- What `verify_plain` and `matched_glob` decide (src/known_hosts.rs).
use openrussh_client.Prelude.{
  ℕ, Text, codes, List, [], ◌∷◌, ◌++◌, append_assoc, append-nil, ◌≡◌, refl, ap, ◌∙◌, Bool, true,
  false, not, ◌&&◌, ◌||◌, Option, none, some, any, ◌==◌, if◌then◌else◌, arith, Bool-cases, inl, inr,
}
use openrussh_client.KnownHosts.Pattern.{
  External, pattern_matches, plain_loop, verify_plain, has_prefix, strip_or, bracket_loop,
  bracket_finish, escape_brackets,
}

module _ (ext : External) (host : Text) (port : Option Text) where
  -- The pattern matches and is not negated.
  abbrev pub admits : Text → Bool
  admits pat = pattern_matches ext host port (strip_or b'!' pat) && not (has_prefix b'!' pat)

  -- The pattern is negated and matches behind the `!`.
  abbrev pub excludes : Text → Bool
  excludes pat = pattern_matches ext host port (strip_or b'!' pat) && has_prefix b'!' pat

  loop-any :
      (b : Bool) (pats : List Text)
      → plain_loop ext host port b pats ≡ (b || any admits pats) && not (any excludes pats)
  unfolding plain_loop
  loop-any b [] = ground arith
  loop-any b (p ∷ pats) =
      rw (loop-any true pats, loop-any b pats)
        (by_cases b (pattern_matches ext host port (strip_or b'!' p)) (has_prefix b'!' p)
          (any admits pats) (any excludes pats))
    where
      by_cases :
          (b m n a e : Bool)
          → (if m then (if n then false else (true || a) && not e) else (b || a) && not e)
            ≡ (b || ((m && not n) || a)) && not ((m && n) || e)
      by_cases b m n a e = ground arith

  -- A pattern list matches exactly if some pattern without `!` matches the host and no pattern with
  -- `!` does, wherever in the list it stands.
  pub verify_plain-any :
      (pats : List Text)
      → verify_plain ext host port pats ≡ any admits pats && not (any excludes pats)
  unfolding verify_plain
  verify_plain-any [] = refl
  verify_plain-any (p ∷ pats) = loop-any false (p ∷ pats)

-- A byte of a glob pattern, with the brackets as the one-character classes `[[]` and `[]]`.
abbrev escape_bracket : ℕ → Text
escape_bracket c = if c == b'[' then codes "[[]" else if c == b']' then codes "[]]" else c ∷ []

abbrev pub escape_each : Text → Text
escape_each [] = []
escape_each (c ∷ s) = escape_bracket c ++ escape_each s

loop-some :
    (pattern r pending s : Text)
    → bracket_finish pattern (bracket_loop (some r) pending s) ≡ r ++ (pending ++ escape_each s)
unfolding bracket_loop bracket_finish
loop-some pattern r pending [] = rw (append-nil pending) refl
loop-some pattern r pending (c ∷ s) = elim (Bool-cases (c == b'[')) [
  | inl e ↦
      rw (e, loop-some pattern ((r ++ pending) ++ codes "[[]") [] s)
        (append_assoc (r ++ pending) (codes "[[]") (escape_each s) ∙ append_assoc r pending _)
  | inr e ↦ elim (Bool-cases (c == b']')) [
    | inl f ↦
        rw (e, f, loop-some pattern ((r ++ pending) ++ codes "[]]") [] s)
          (append_assoc (r ++ pending) (codes "[]]") (escape_each s) ∙ append_assoc r pending _)
    | inr f ↦
        rw (e, f, loop-some pattern r (pending ++ c ∷ []) s)
          (ap (λ t. r ++ t) (append_assoc pending (c ∷ []) (escape_each s)))
  ]
]

loop-none :
    (pending s : Text)
    → bracket_finish (pending ++ s) (bracket_loop none pending s) ≡ pending ++ escape_each s
unfolding bracket_loop bracket_finish
loop-none pending [] = refl
loop-none pending (c ∷ s) = elim (Bool-cases (c == b'[')) [
  | inl e ↦
      rw (e, loop-some (pending ++ c ∷ s) (pending ++ codes "[[]") [] s)
        (append_assoc pending (codes "[[]") (escape_each s))
  | inr e ↦ elim (Bool-cases (c == b']')) [
    | inl f ↦
        rw (e, f, loop-some (pending ++ c ∷ s) (pending ++ codes "[]]") [] s)
          (append_assoc pending (codes "[]]") (escape_each s))
    | inr f ↦
        rw
          (
            e,
            f,
            ← append_assoc pending (c ∷ []) s,
            loop-none (pending ++ c ∷ []) s,
            append_assoc pending (c ∷ []) (escape_each s),
          )
          refl
  ]
]

-- The loop over the brackets of a pattern, which copies the pieces between them, replaces each
-- bracket by itself and keeps every other byte.
pub escape_brackets-each : (pattern : Text) → escape_brackets pattern ≡ escape_each pattern
unfolding escape_brackets
escape_brackets-each pattern = loop-none [] pattern
