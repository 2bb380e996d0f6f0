-- ===== src/KnownHosts/SameLines.antt =====
-- Two known_hosts files with the same lines for a host (src/known_hosts.rs).
use openrussh_client.Prelude.{
  ℕ, Text, List, ◌∷◌, ◌≡◌, refl, sym, ◌∙◌, Bool, false, ◌||◌, ◌&&◌, any, filter, not, ◌++◌, some,
  arith, fun_ext, ap,
}
use mathlib.Core.Bool.{Bool-set}
use mathlib.Core.Logic.{∥∥₁_elim}
use mathlib.Core.List.{Perm, Permᴰ}
use openrussh_client.KnownHosts.Pattern.{External}
use openrussh_client.KnownHosts.Alg.{Algorithm, SigAlg, from_alg}
use openrussh_client.KnownHosts.Entry.{Digest, LookupKey, pubkey, ca}
use openrussh_client.KnownHosts.Handler.{
  Entry, new, handler, ServerKey, plain_key, certificate, is_revoked, is_trusted, has_pubkeys,
  check_server_key, check_public_key_impl, check_public_key, check_cert, lookup_of,
}
use openrussh_client.KnownHosts.Handler.Check.{
  loaded, matches, revokes_key, names_key, trusts_key, trusts_authority, any-eq, is_revoked-lines,
  is_trusted-lines, is_trusted-authority, has_pubkeys-lines,
}
use openrussh_client.KnownHosts.Preferred.{Preferred, preferred_cert_alg, update_preferred_config}
use openrussh_client.KnownHosts.Preferred.Order.{in_order}
use openrussh_client.KnownHosts.Preferred.Lines.{knows, update_preferred_config-ordered}

-- The lines are the same, in whatever order and however often they stand there: no test tells them
-- apart.
abbrev pub SameLines : List Entry → List Entry → Type 0
SameLines es fs = (p : Entry → Bool) → any p es ≡ any p fs

swap_or : (a b c : Bool) → a || (b || c) ≡ b || (a || c)
swap_or a b c = ground arith

Permᴰ-any : {A : Type 0} (p : A → Bool) {xs ys : List A} → Permᴰ xs ys → any p xs ≡ any p ys
Permᴰ-any p Permᴰ.nil = refl
Permᴰ-any p (Permᴰ.cons e h) = rw (e, Permᴰ-any p h) refl
Permᴰ-any p (Permᴰ.swap {a' = a'} {b' = b'} {l = l} d e) =
    rw (d, e) (swap_or (p b') (p a') (any p l))
Permᴰ-any p (Permᴰ.trans g h) = Permᴰ-any p g ∙ Permᴰ-any p h

pub Perm-SameLines : {es fs : List Entry} → Perm es fs → SameLines es fs
Perm-SameLines h p = ∥∥₁_elim h (Bool-set _ _) (Permᴰ-any p)

abbrev replaced_by : List Algorithm → Preferred
replaced_by key = record { key = key; host_key_certificates = preferred_cert_alg }

-- The lines for a host and a port are the same.
abbrev pub SameFor : External → Text → ℕ → List Entry → List Entry → Type 0
SameFor ext host port es fs =
    (p : Entry → Bool)
    → any (λ e. matches ext host port e && p e) es ≡ any (λ e. matches ext host port e && p e) fs

module _ (ext : External) (host : Text) (port : ℕ) where
  pub SameLines-SameFor : (es fs : List Entry) → SameLines es fs → SameFor ext host port es fs
  SameLines-SameFor es fs same p = same _

  -- A line for another host.
  pub SameFor-other :
      (e : Entry) (es : List Entry)
      → matches ext host port e ≡ false
      → SameFor ext host port (e ∷ es) es
  SameFor-other e es other p = rw other refl

  revokes_key-matches :
      (k : LookupKey) (e : Entry)
      → revokes_key ext host port k e ≡ matches ext host port e && revokes_key ext host port k e
  unfolding revokes_key
  revokes_key-matches k e = ground arith

  names_key-matches :
      (e : Entry) → names_key ext host port e ≡ matches ext host port e && names_key ext host port e
  unfolding names_key
  names_key-matches e = ground arith

  and_matches :
      (b : Bool) (e : Entry)
      → b && names_key ext host port e ≡ matches ext host port e && (b && names_key ext host port e)
  and_matches b e = ground (arith, names_key-matches e)

  trusts_key-matches :
      (k : LookupKey) (e : Entry)
      → trusts_key ext host port k e ≡ matches ext host port e && trusts_key ext host port k e
  unfolding trusts_key
  trusts_key-matches k e = and_matches _ e

  trusts_authority-matches :
      (d : Digest) (e : Entry)
      → trusts_authority ext host port d e
        ≡ matches ext host port e && trusts_authority ext host port d e
  unfolding trusts_authority
  trusts_authority-matches d e = ground arith

module _ (ext : External) (host : Text) (port : ℕ) (es fs : List Entry)
    (same : SameFor ext host port es fs) where
  same_of :
      (p : Entry → Bool)
      → ((e : Entry) → p e ≡ matches ext host port e && p e)
      → any p es ≡ any p fs
  same_of p h = any-eq _ _ h es ∙ same p ∙ sym (any-eq _ _ h fs)

  is_revoked-same :
      (k : LookupKey)
      → is_revoked ext (loaded ext host port es) k ≡ is_revoked ext (loaded ext host port fs) k
  is_revoked-same k =
      is_revoked-lines ext host port es k
      ∙ same_of _ (revokes_key-matches ext host port k)
      ∙ sym (is_revoked-lines ext host port fs k)

  is_trusted-same :
      (k : LookupKey)
      → is_trusted ext (loaded ext host port es) k ≡ is_trusted ext (loaded ext host port fs) k
  is_trusted-same (pubkey a d) =
      is_trusted-lines ext host port es a d
      ∙ same_of _ (trusts_key-matches ext host port (pubkey a d))
      ∙ sym (is_trusted-lines ext host port fs a d)
  is_trusted-same (ca d) =
      is_trusted-authority ext host port es d
      ∙ same_of _ (trusts_authority-matches ext host port d)
      ∙ sym (is_trusted-authority ext host port fs d)

  has_pubkeys-same :
      has_pubkeys ext (loaded ext host port es) ≡ has_pubkeys ext (loaded ext host port fs)
  has_pubkeys-same =
      has_pubkeys-lines ext host port es
      ∙ same_of _ (names_key-matches ext host port)
      ∙ sym (has_pubkeys-lines ext host port fs)

  impl-same :
      (d : Digest) (a : SigAlg)
      → check_public_key_impl ext (loaded ext host port es) d a
        ≡ check_public_key_impl ext (loaded ext host port fs) d a
  unfolding check_public_key_impl
  impl-same d a =
      rw (is_revoked-same (pubkey a d), is_trusted-same (pubkey a d), has_pubkeys-same) refl

  check-same :
      (key : ServerKey)
      → check_server_key ext (loaded ext host port es) key
        ≡ check_server_key ext (loaded ext host port fs) key
  unfolding check_server_key check_public_key check_cert handler
  check-same (plain_key k) = impl-same k.digest (from_alg k.algorithm)
  check-same (certificate c) =
      rw
        (
          is_revoked-same (lookup_of c.signature_key),
          is_revoked-same (lookup_of c.public_key),
          is_trusted-same (ca c.signature_key.digest),
          impl-same c.public_key.digest (from_alg c.algorithm),
        )
        refl

  knows-same : (a : SigAlg) → knows ext host port es a ≡ knows ext host port fs a
  knows-same a = same_of _ (λ e. and_matches ext host port _ e)

  update-same :
      (config : Preferred)
      → update_preferred_config ext (loaded ext host port es) config
        ≡ update_preferred_config ext (loaded ext host port fs) config
  update-same config =
      update_preferred_config-ordered ext host port es config
      ∙ ap
          (λ (k : SigAlg → Bool).
            some (replaced_by (in_order k ++ filter (λ alg. not (k (from_alg alg))) config.key)))
          (fun_ext knows-same)
      ∙ sym (update_preferred_config-ordered ext host port fs config)

  -- What the handler for a host answers depends only on which lines the file has for that host:
  -- neither on the lines for other hosts, nor on the order of its lines, nor on how often one
  -- stands there. It is so for the verdict on a server's key or certificate, with the reason for a
  -- refusal, and for the preference that is given to russh, with the order of its algorithms.
  pub check_server_key-same :
      ((key : ServerKey)
        → check_server_key ext (handler (new es) host port) key
          ≡ check_server_key ext (handler (new fs) host port) key)
      × ((config : Preferred)
          → update_preferred_config ext (handler (new es) host port) config
            ≡ update_preferred_config ext (handler (new fs) host port) config)
  check_server_key-same = (check-same, update-same)
