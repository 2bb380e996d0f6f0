-- ===== src/Auth/KeyFile/Search.antt =====
-- The searches in a file's name and in its first bytes (src/auth.rs).
use openrussh_client.Prelude.{
  ℕ, Text, codes, [], ◌∷◌, ◌++◌, ◌≡◌, ◌≢◌, ◌⊎◌, inl, inr, refl, sym, ap, ◌∙◌, true, false, Option,
  none, some, some_inj, ◌==◌, Bool-cases, arith, ==_refl, ==_iff,
}
use openrussh_client.Auth.KeyFile.{rsplit_dot, strip_prefix, contains, is_there}

pub none-ne-some : {A : Type 0} (a : A) → ◌≢◌ {A = Option A} none (some a)
none-ne-some a e = cc

pub false-ne-true : false ≢ true
false-ne-true e = cc

pub strip_prefix-append : (p s : Text) → strip_prefix p (p ++ s) ≡ some s
unfolding strip_prefix
strip_prefix-append [] s = refl
strip_prefix-append (c ∷ p) s = rw (==_refl c) (strip_prefix-append p s)

pub strip_prefix_sound : (p s r : Text) → strip_prefix p s ≡ some r → s ≡ p ++ r
unfolding strip_prefix
strip_prefix_sound [] s r e = some_inj e
strip_prefix_sound (c ∷ p) [] r e = absurd (none-ne-some r e)
strip_prefix_sound (c ∷ p) (x ∷ s) r e = elim (Bool-cases (c == x)) [
  | inl h ↦
      ap (λ y. y ∷ s) (sym ((==_iff c x).0 h))
      ∙ ap (λ l. c ∷ l) (strip_prefix_sound p s r (rw h at e))
  | inr h ↦ absurd (none-ne-some r (rw h at e))
]

pub Option-cases : {A : Type 0} (o : Option A) → ((a : A) × (o ≡ some a)) ⊎ (o ≡ none)
Option-cases none = inr refl
Option-cases (some a) = inl (a, refl)

pub is_there-some : {A : Type 0} (o : Option A) → is_there o ≡ true → (a : A) × (o ≡ some a)
is_there-some none h = ground (arith, h)
is_there-some (some a) h = (a, refl)

pub contains-append : (c : ℕ) (p a b : Text) → contains (c ∷ p) (a ++ ((c ∷ p) ++ b)) ≡ true
unfolding contains
contains-append c p [] b = rw (strip_prefix-append (c ∷ p) b) refl
contains-append c p (x ∷ a) b = ground (arith, contains-append c p a b)

pub contains_sound :
    (needle s : Text)
    → contains needle s ≡ true
    → (a : Text) × (b : Text) × (s ≡ a ++ (needle ++ b))
unfolding contains
contains_sound needle [] h = ground (arith, h)
contains_sound needle (x ∷ s) h = elim (Bool-cases (is_there (strip_prefix needle (x ∷ s)))) [
  | inl t ↦ let (r, e) = is_there-some _ t in ([], r, strip_prefix_sound needle (x ∷ s) r e)
  | inr f ↦ let (a, b, e) = contains_sound needle s (rw f at h) in (x ∷ a, b, ap (λ l. x ∷ l) e)
]

pub rsplit_dot-append : (stem : Text) → rsplit_dot (stem ++ codes ".pub") ≡ some (stem, codes "pub")
unfolding rsplit_dot
rsplit_dot-append [] = refl
rsplit_dot-append (x ∷ stem) = rw (rsplit_dot-append stem) refl

pub rsplit_dot_sound : (s : Text) (p : Text × Text) → rsplit_dot s ≡ some p → s ≡ p.0 ++ b'.' ∷ p.1
unfolding rsplit_dot
rsplit_dot_sound [] p e = absurd (none-ne-some p e)
rsplit_dot_sound (x ∷ s) p e = elim (Option-cases (rsplit_dot s)) [
  | inl (q, f) ↦
      ap (λ l. x ∷ l) (rsplit_dot_sound s q f)
      ∙ ap (λ (r : Text × Text). r.0 ++ b'.' ∷ r.1) (some_inj (rw f at e))
  | inr f ↦ elim (Bool-cases (x == b'.')) [
    | inl h ↦
        ap (λ y. y ∷ s) ((==_iff x b'.').0 h)
        ∙ ap (λ (r : Text × Text). r.0 ++ b'.' ∷ r.1) (some_inj (rw (f, h) at e))
    | inr h ↦ absurd (none-ne-some p (rw (f, h) at e))
  ]
]
