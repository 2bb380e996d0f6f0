-- ===== src/Auth/KeyFile/Kind.antt =====
-- Which files `check_pub_or_priv` takes for private keys (src/auth.rs).
use openrussh_client.Prelude.{
  Text, codes, [], ◌∷◌, ◌++◌, ◌≡◌, ◌≢◌, ◌↔◌, inl, inr, refl, sym, ap, ◌∙◌, true, false, Option,
  none, some, some_inj, text_eq, text_eq_sound, if◌then◌else◌, Bool-cases, arith,
}
use openrussh_client.Auth.KeyFile.Search.{
  none-ne-some, false-ne-true, strip_prefix-append, strip_prefix_sound, Option-cases, is_there-some,
  contains-append, contains_sound, rsplit_dot-append, rsplit_dot_sound,
}
use openrussh_client.Auth.KeyFile.{
  KeyType, maybe_public, maybe_private, key_error, Files, file_name, rsplit_dot, extension,
  strip_prefix, contains, is_there, looks_like, unwrap_or_error, check_pub_or_priv,
}

-- The name of the file is a stem with `.pub` behind it.
abbrev pub IsPub : Text → Type 0
IsPub path = (stem : Text) × (stem ≢ []) × (file_name path ≡ some (stem ++ codes ".pub"))

-- The first bytes of the file begin like PEM, with `PRIVATE` among what follows, but not with
-- `PUBLIC` at its front.
abbrev pub IsPem : Option Text → Type 0
IsPem first =
    (before : Text) × (behind : Text) × (first
      ≡ some (codes "-----BEGIN " ++ (before ++ (codes "PRIVATE" ++ behind))))
    × ((r : Text) → before ++ (codes "PRIVATE" ++ behind) ≢ codes "PUBLIC" ++ r)

text_eq-nil : (s : Text) → s ≢ [] → text_eq s [] ≡ false
text_eq-nil [] n = absurd (n refl)
text_eq-nil (x ∷ s) n = refl

text_eq-not_nil : (s : Text) → text_eq s [] ≡ false → s ≢ []
text_eq-not_nil [] h q = ground (arith, h)
text_eq-not_nil (x ∷ s) h q = cc

not-prefixed :
    (rest r : Text)
    → is_there (strip_prefix (codes "PUBLIC") rest) ≡ false
    → rest ≢ codes "PUBLIC" ++ r
not-prefixed rest r h q =
    let there : is_there (strip_prefix (codes "PUBLIC") rest) ≡ true =
      ap (λ s. is_there (strip_prefix (codes "PUBLIC") s)) q
      ∙ ap is_there (strip_prefix-append (codes "PUBLIC") r) in
    false-ne-true (sym h ∙ there)

IsPub-extension : (path : Text) → IsPub path → extension path ≡ some (codes "pub")
unfolding extension
IsPub-extension path (stem, n, e) =
    rw (e, rsplit_dot-append stem, text_eq-nil stem n, extension) refl

extension-IsPub : (path : Text) → extension path ≡ some (codes "pub") → IsPub path
unfolding extension
extension-IsPub path e = elim (Option-cases (file_name path)) [
  | inr f ↦ absurd (none-ne-some _ (rw (f, extension) at e))
  | inl (name, f) ↦ elim (Option-cases (rsplit_dot name)) [
    | inr g ↦ absurd (none-ne-some _ (rw (f, extension, g) at e))
    | inl ((before, after), g) ↦ elim (Bool-cases (text_eq before [])) [
      | inl h ↦ absurd (none-ne-some _ (rw (f, extension, g, h) at e))
      | inr h ↦ (
        before,
        text_eq-not_nil before h,
        f
            ∙ ap some (
                rsplit_dot_sound name (before, after) g
                ∙ ap (λ l. before ++ b'.' ∷ l) (some_inj (rw (f, extension, g, h) at e))),
      )
    ]
  ]
]

public_no_private : ◌≢◌ {A = KeyType} maybe_public maybe_private
public_no_private e = cc

error_no_private : ◌≢◌ {A = KeyType} key_error maybe_private
error_no_private e = cc

looks_like-IsPem : (buf : Text) → looks_like buf ≡ maybe_private → IsPem (some buf)
unfolding looks_like
looks_like-IsPem buf h = elim (Option-cases (strip_prefix (codes "-----BEGIN ") buf)) [
  | inr e ↦ absurd (public_no_private (rw e at h))
  | inl (rest, e) ↦ elim (Bool-cases (is_there (strip_prefix (codes "PUBLIC") rest))) [
    | inl p ↦ absurd (public_no_private (rw (e, p) at h))
    | inr p ↦ elim (Bool-cases (contains (codes "PRIVATE") rest)) [
      | inr c ↦ absurd (error_no_private (rw (e, p, c) at h))
      | inl c ↦
          let (before, behind, q) = contains_sound (codes "PRIVATE") rest c in
          (
            before,
            behind,
            ap some (
                strip_prefix_sound (codes "-----BEGIN ") buf rest e
                ∙ ap (λ l. codes "-----BEGIN " ++ l) q),
            λ r f. not-prefixed rest r p (q ∙ f),
          )
    ]
  ]
]

IsPem-looks_like : (buf : Text) → IsPem (some buf) → looks_like buf ≡ maybe_private
unfolding looks_like
IsPem-looks_like buf (before, behind, e, n) =
    elim (Bool-cases
      (is_there (strip_prefix (codes "PUBLIC") (before ++ (codes "PRIVATE" ++ behind))))) [
        | inl p ↦
            let (r, f) = is_there-some _ p in
            absurd (n r (strip_prefix_sound (codes "PUBLIC") _ r f))
        | inr p ↦ rw (some_inj e, p, contains-append b'P' (codes "RIVATE") before behind) refl
      ]

read-IsPem : (first : Option Text) → unwrap_or_error first ≡ maybe_private → IsPem first
read-IsPem none h = absurd (error_no_private h)
read-IsPem (some buf) h = looks_like-IsPem buf h

IsPem-read : (first : Option Text) → IsPem first → unwrap_or_error first ≡ maybe_private
IsPem-read none (before, behind, e, n) = absurd (none-ne-some _ e)
IsPem-read (some buf) pem = IsPem-looks_like buf pem

-- The result for an extension.
pub kind_of : KeyType → Option Text → KeyType
kind_of read none = read
kind_of read (some ext) = if text_eq ext (codes "pub") then maybe_public else read

kind_of-private :
    (read : KeyType) (ext : Option Text)
    → kind_of read ext ≡ maybe_private
    → (ext ≢ some (codes "pub")) × (read ≡ maybe_private)
unfolding kind_of
kind_of-private read none h = (λ e. none-ne-some _ e, h)
kind_of-private read (some ext) h = elim (Bool-cases (text_eq ext (codes "pub"))) [
  | inl p ↦ absurd (public_no_private (rw p at h))
  | inr p ↦ (λ e. false-ne-true (sym p ∙ ap (λ x. text_eq x (codes "pub")) (some_inj e)), rw p at h)
]

private-kind_of :
    (read : KeyType) (ext : Option Text)
    → ext ≢ some (codes "pub")
    → read ≡ maybe_private
    → kind_of read ext ≡ maybe_private
unfolding kind_of
private-kind_of read none n h = h
private-kind_of read (some ext) n h = elim (Bool-cases (text_eq ext (codes "pub"))) [
  | inl p ↦ absurd (n (ap some (text_eq_sound ext (codes "pub") p)))
  | inr p ↦ rw p h
]

pub check-kind_of :
    (files : Files) (path : Text)
    → check_pub_or_priv files path ≡ kind_of (unwrap_or_error (files.read_40 path)) (extension path)
unfolding check_pub_or_priv kind_of
check-kind_of files path = elim (Option-cases (extension path)) [
  | inl (ext, e) ↦ rw (e, check_pub_or_priv) refl
  | inr e ↦ rw (e, check_pub_or_priv) refl
]

-- A key file is taken for a private key exactly if its name is not a stem with `.pub` behind it,
-- and its first 40 bytes can be read, begin with `-----BEGIN `, have `PRIVATE` somewhere behind
-- that, and not `PUBLIC` directly behind it.
pub check_pub_or_priv-private :
    (files : Files) (path : Text)
    → (check_pub_or_priv files path ≡ maybe_private) ↔ ((¬ IsPub path) × IsPem (files.read_40 path))
check_pub_or_priv-private files path = (
  λ h.
      let (n, read) = kind_of-private _ (extension path) (sym (check-kind_of files path) ∙ h) in
      (λ named. n (IsPub-extension path named), read-IsPem (files.read_40 path) read),
  λ p.
      check-kind_of files path
      ∙ private-kind_of _ (extension path) (λ e. p.0 (extension-IsPub path e))
          (IsPem-read (files.read_40 path) p.1),
)
