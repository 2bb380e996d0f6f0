-- ===== src/KnownHosts/Pattern/Literal.antt =====
-- Which host and port a pattern without wildcards is for (src/known_hosts.rs).
use openrussh_client.Prelude.{
  ℕ, Text, codes, [], ◌∷◌, ◌++◌, ◌≡◌, refl, sym, ap, ◌∙◌, Bool, true, false, not, ◌&&◌, ◌||◌,
  Option, none, some, any, All, arith, text_eq, text_eq_refl, text_eq_sound, ◌==◌, ==_iff,
  Bool-cases, inl, inr,
}
use openrussh_client.Escape.Number.{
  IsDigit, value, format_into, format_into-value, format_into-digits,
}
use openrussh_client.KnownHosts.Pattern.{
  External, patterns, rsplit_port, is_wildcard, has_prefix, strip_or, matched_glob, pattern_matches,
  host_matched_known_hosts, port_text,
}
use openrussh_client.KnownHosts.Pattern.Plain.{verify_plain-any}
use openrussh_client.KnownHosts.Pattern.Host.{IsPlain}

-- Neither a bracket nor a wildcard.
abbrev pub IsLiteral : ℕ → Type 0
IsLiteral c = IsPlain c × (is_wildcard c ≡ false)

digit-IsLiteral : (c : ℕ) → IsDigit c → IsLiteral c
digit-IsLiteral c d = ground arith

digits-IsLiteral : (s : Text) → All IsDigit s → All IsLiteral s
digits-IsLiteral [] d = tt
digits-IsLiteral (c ∷ s) (d, ds) = (digit-IsLiteral c d, digits-IsLiteral s ds)

literal-no_wildcard : (s : Text) → All IsLiteral s → any is_wildcard s ≡ false
literal-no_wildcard [] h = refl
literal-no_wildcard (c ∷ s) ((p, w), h) = rw (w, literal-no_wildcard s h) refl

matched_glob-literal :
    (ext : External) (needle s : Text)
    → All IsLiteral s
    → matched_glob ext needle s ≡ text_eq needle s
unfolding matched_glob
matched_glob-literal ext needle s h = rw (literal-no_wildcard s h) refl

rsplit_port-literal : (s : Text) → All IsLiteral s → rsplit_port s ≡ none
unfolding rsplit_port
rsplit_port-literal [] h = refl
rsplit_port-literal (c ∷ s) (((l, r), w), h) = rw (rsplit_port-literal s h, r) refl

rsplit_port-last :
    (h port : Text) → All IsLiteral port → rsplit_port (h ++ (codes "]:" ++ port)) ≡ some (h, port)
unfolding rsplit_port
rsplit_port-last [] port l = rw (rsplit_port-literal port l) refl
rsplit_port-last (c ∷ h) port l = rw (rsplit_port-last h port l) refl

Bool-ext : (a b : Bool) → (a ≡ true → b ≡ true) → (b ≡ true → a ≡ true) → a ≡ b
Bool-ext true true f g = refl
Bool-ext true false f g = sym (f refl)
Bool-ext false true f g = g refl
Bool-ext false false f g = refl

text_eq-format_into : (n m : ℕ) → text_eq (format_into n) (format_into m) ≡ (n == m)
text_eq-format_into n m = Bool-ext _ _ same texts
  where
    same : text_eq (format_into n) (format_into m) ≡ true → (n == m) ≡ true
    same e = (==_iff n m).1 (
        sym (format_into-value n)
        ∙ ap (value 0) (text_eq_sound (format_into n) (format_into m) e)
        ∙ format_into-value m)

    texts : (n == m) ≡ true → text_eq (format_into n) (format_into m) ≡ true
    texts e = rw ((==_iff n m).0 e) (text_eq_refl (format_into m))

-- The port that is compared, 22 where none is kept.
port_text-or : (n : ℕ) → (elim (port_text n) [ none ↦ codes "22" | some p ↦ p ]) ≡ format_into n
unfolding port_text
port_text-or n = elim (Bool-cases (n == 22)) [
  | inl e ↦ rw ((==_iff n 22).0 e) refl
  | inr e ↦ rw e refl
]

port_text-none :
    (n : ℕ) (b : Bool) → (elim (port_text n) [ none ↦ b | some p ↦ false ]) ≡ (n == 22) && b
unfolding port_text
port_text-none n b = elim (Bool-cases (n == 22)) [ inl e ↦ rw e refl | inr e ↦ rw e refl ]

strip_or-none : (pat : Text) → has_prefix b'!' pat ≡ false → strip_or b'!' pat ≡ pat
unfolding strip_or has_prefix
strip_or-none [] q = refl
strip_or-none (c ∷ pat) q = rw q refl

-- A list of one pattern without `!`.
host_matched-one :
    (ext : External) (host : Text) (port : Option Text) (pat : Text)
    → has_prefix b'!' pat ≡ false
    → host_matched_known_hosts ext host port (patterns (pat ∷ []))
      ≡ pattern_matches ext host port pat
unfolding host_matched_known_hosts
host_matched-one ext host port pat q =
    verify_plain-any ext host port (pat ∷ [])
    ∙ rw (q, strip_or-none pat q) (kept (pattern_matches ext host port pat))
  where
    kept : (b : Bool) → ((b && true) || false) && not ((b && false) || false) ≡ b
    kept b = ground arith

module _ (ext : External) (host h : Text) (n m : ℕ) (l : All IsLiteral h) where
  pattern_matches-host : pattern_matches ext host (port_text n) h ≡ (n == 22) && text_eq host h
  unfolding pattern_matches
  pattern_matches-host =
      rw (rsplit_port-literal h l, pattern_matches)
        (port_text-none n (matched_glob ext host h)
          ∙ ap (λ b. (n == 22) && b) (matched_glob-literal ext host h l))

  pattern_matches-port :
      pattern_matches ext host (port_text n) (codes "[" ++ (h ++ (codes "]:" ++ format_into m)))
      ≡ (n == m) && text_eq host h
  unfolding pattern_matches strip_or
  pattern_matches-port =
      rw (rsplit_port-last (b'[' ∷ h) (format_into m) port_literal, pattern_matches)
        (rw
          (
            port_text-or n,
            matched_glob-literal ext (format_into n) (format_into m) port_literal,
            text_eq-format_into n m,
            matched_glob-literal ext host h l,
          )
          refl)
    where
      port_literal : All IsLiteral (format_into m)
      port_literal = digits-IsLiteral (format_into m) (format_into-digits m)

  -- A line that gives a host name, which has neither a bracket nor a wildcard and does not start
  -- with `!`, is for that host at port 22 only, and a line that gives `[host]:port` is for that
  -- host at that port only.
  pub host_matched-literal :
      has_prefix b'!' h ≡ false
      → (host_matched_known_hosts ext host (port_text n) (patterns (h ∷ []))
          ≡ (n == 22) && text_eq host h)
        × (host_matched_known_hosts ext host
              (port_text n)
              (patterns ((codes "[" ++ (h ++ (codes "]:" ++ format_into m))) ∷ []))
            ≡ (n == m) && text_eq host h)
  unfolding has_prefix
  host_matched-literal q = (
    host_matched-one ext host (port_text n) h q ∙ pattern_matches-host,
    host_matched-one ext host (port_text n) (codes "[" ++ (h ++ (codes "]:" ++ format_into m))) refl
        ∙ pattern_matches-port,
  )
