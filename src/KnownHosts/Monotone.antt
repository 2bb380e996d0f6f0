-- ===== src/KnownHosts/Monotone.antt =====
-- Changing a known_hosts file, and the servers that are accepted (src/known_hosts.rs).
use openrussh_client.Prelude.{
  ℕ, Text, List, [], ◌∷◌, ◌≡◌, ◌≢◌, refl, sym, ◌∙◌, ap, Bool, true, false, not, ◌&&◌, ◌||◌, Option,
  none, some, any, arith, Bool-cases, inl, inr,
}
use mathlib.Core.Bool.{Bool-set}
use mathlib.Core.Logic.{∥∥₁_elim}
use mathlib.Core.List.{Mem, Mem-prop, Memᴰ, mem-cons_self, mem-cons_of_mem, eq-or-mem_of_mem-cons}
use openrussh_client.KnownHosts.Pattern.{External}
use openrussh_client.KnownHosts.Alg.{from_alg}
use openrussh_client.KnownHosts.Entry.{Digest, LookupKey, pubkey}
use openrussh_client.KnownHosts.Handler.{
  Marker, cert_authority, Entry, lookup_of, new, handler, ServerKey, plain_key, certificate,
  Certificate, is_found, accepts, check_server_key,
}
use openrussh_client.KnownHosts.Handler.Check.{
  marks_revoked, marks_authority, is_unmarked, revokes_key, trusts_key, trusts_authority, names_key,
}
use openrussh_client.KnownHosts.Handler.Decide.{
  decide, check_public_key-decide, accepts-certificate,
}

-- If the first is true, then the second is.
abbrev Leads : Bool → Bool → Type 0
Leads a b = a ≡ true → b ≡ true

and-Leads : (a b : Bool) {c d : Bool} → Leads a b → Leads c d → Leads (a && c) (b && d)
and-Leads false b f g h = ground (arith, h)
and-Leads true b f g h = rw (f refl) (g h)

or-Leads : (a b : Bool) {c d : Bool} → Leads a b → Leads c d → Leads (a || c) (b || d)
or-Leads true b f g h = rw (f refl) refl
or-Leads false true f g h = refl
or-Leads false false f g h = g h

not-Leads : (a b : Bool) → Leads b a → Leads (not a) (not b)
not-Leads a false f h = refl
not-Leads false true f h = ground (arith, f refl)
not-Leads true true f h = h

Memᴰ-any :
    {A : Type 0} {a : A} {xs : List A} (p : A → Bool) → p a ≡ true → Memᴰ a xs → any p xs ≡ true
Memᴰ-any p t (Memᴰ.head e) = rw (← ap p e, t) refl
Memᴰ-any p t (Memᴰ.tail m) = rw (Memᴰ-any p t m) (ground arith)

-- The lines with a test are among others.
any-Leads :
    {A : Type 0} (p : A → Bool) (xs ys : List A)
    → ((a : A) → Mem a xs → p a ≡ true → Mem a ys)
    → Leads (any p xs) (any p ys)
any-Leads p [] ys kept h = ground (arith, h)
any-Leads p (x ∷ xs) ys kept h = elim (Bool-cases (p x)) [
  | inl t ↦ ∥∥₁_elim (kept x mem-cons_self t) (Bool-set _ _) (Memᴰ-any p t)
  | inr f ↦ any-Leads p xs ys (λ a m. kept a (mem-cons_of_mem x m)) (rw f at h)
]

and_left : (a b : Bool) → a && b ≡ true → a ≡ true
and_left true b h = refl
and_left false b h = h

and_right : (a b : Bool) → a && b ≡ true → b ≡ true
and_right true b h = h
and_right false b h = ground (arith, h)

unmarked-not-revoked : (m : Option Marker) → is_unmarked m ≡ true → marks_revoked m ≡ false
unmarked-not-revoked none h = refl
unmarked-not-revoked (some m) h = ground (arith, h)

authority-not-revoked : (m : Option Marker) → marks_authority m ≡ true → marks_revoked m ≡ false
authority-not-revoked none h = refl
authority-not-revoked (some Marker.revoked) h = ground (arith, h)
authority-not-revoked (some cert_authority) h = refl

is_found-decide :
    (revoked trusted named : Bool)
    → is_found (decide revoked trusted named) ≡ not revoked && trusted
unfolding is_found
is_found-decide true t n = refl
is_found-decide false true n = refl
is_found-decide false false true = refl
is_found-decide false false false = refl

-- The second file keeps every line of the first that revokes nothing, and revokes nothing that the
-- first does not.
abbrev pub Extends : List Entry → List Entry → Type 0
Extends es fs =
    ((e : Entry) → Mem e es → marks_revoked e.marker ≡ false → Mem e fs)
    × ((e : Entry) → Mem e fs → marks_revoked e.marker ≡ true → Mem e es)

not-eq_self : (b : Bool) → b ≢ not b
not-eq_self true h = ground (arith, h)
not-eq_self false h = ground (arith, h)

past_head :
    {e x : Entry} {xs : List Entry} (b : Bool)
    → Mem e (x ∷ xs)
    → marks_revoked e.marker ≡ b
    → marks_revoked x.marker ≡ not b
    → Mem e xs
past_head {xs = xs} b m he hx = ∥∥₁_elim (eq-or-mem_of_mem-cons m) Mem-prop (λ d. elim d [
  | inl q ↦ absurd (not-eq_self b (sym he ∙ ap (λ (e : Entry). marks_revoked e.marker) q ∙ hx))
  | inr n ↦ n
])

-- A line that revokes nothing is added, or one that revokes a key is taken out.
pub Extends-add :
    (e : Entry) (es : List Entry) → marks_revoked e.marker ≡ false → Extends es (e ∷ es)
Extends-add e es h = (λ x m p. mem-cons_of_mem e m, λ x m p. past_head true m p h)

pub Extends-remove :
    (e : Entry) (es : List Entry) → marks_revoked e.marker ≡ true → Extends (e ∷ es) es
Extends-remove e es h = (λ x m p. past_head false m p h, λ x m p. mem-cons_of_mem e m)

module _ (ext : External) (host : Text) (port : ℕ) (es fs : List Entry) (more : Extends es fs) where
  trusts_key-Leads :
      (k : LookupKey)
      → Leads (any (trusts_key ext host port k) es) (any (trusts_key ext host port k) fs)
  unfolding trusts_key names_key
  trusts_key-Leads k =
      any-Leads _ es fs
        (λ e m t. more.0 e m (unmarked-not-revoked e.marker (and_left _ _ (and_right _ _ t))))

  revokes_key-Leads :
      (k : LookupKey)
      → Leads (any (revokes_key ext host port k) fs) (any (revokes_key ext host port k) es)
  unfolding revokes_key
  revokes_key-Leads k = any-Leads _ fs es (λ e m t. more.1 e m (and_left _ _ t))

  trusts_authority-Leads :
      (d : Digest)
      → Leads
          (any (trusts_authority ext host port d) es)
          (any (trusts_authority ext host port d) fs)
  unfolding trusts_authority
  trusts_authority-Leads d =
      any-Leads _ es fs (λ e m t. more.0 e m (authority-not-revoked e.marker (and_left _ _ t)))

  found-Leads :
      (known n m : Bool) (k : LookupKey)
      → Leads
          (is_found (
            decide
              (any (revokes_key ext host port k) es)
              (known && any (trusts_key ext host port k) es)
              n))
          (is_found (
            decide
              (any (revokes_key ext host port k) fs)
              (known && any (trusts_key ext host port k) fs)
              m))
  found-Leads known n m k h =
      is_found-decide _ _ m
      ∙ and-Leads _ _ (not-Leads _ _ (revokes_key-Leads k))
          (and-Leads known known (λ t. t) (trusts_key-Leads k)) (sym (is_found-decide _ _ n) ∙ h)

  certificate-Leads :
      (c : Certificate)
      → Leads
          (accepts ext (handler (new es) host port) (certificate c))
          (accepts ext (handler (new fs) host port) (certificate c))
  certificate-Leads c h =
      accepts-certificate ext host port fs c
      ∙ and-Leads c.is_host _ (λ t. t)
          (and-Leads (not c.has_critical_options) _ (λ t. t)
            (and-Leads _ _ (λ t. t)
              (and-Leads _ _
                (not-Leads _ _ (
                  or-Leads _ _ (revokes_key-Leads (lookup_of c.signature_key))
                    (revokes_key-Leads (lookup_of c.public_key))))
                (and-Leads _ _ (trusts_authority-Leads c.signature_key.digest) (
                  or-Leads (c.is_valid c.signature_key.digest) _ (λ t. t)
                    (found-Leads _ _ _ (pubkey (from_alg c.algorithm) c.public_key.digest)))))))
          (sym (accepts-certificate ext host port es c) ∙ h)

  -- A server whose key or certificate is accepted stays so, for every host and port, if the
  -- known_hosts file is changed so that every line of it without `@revoked` is still there, and
  -- every line with `@revoked` was there before: adding lines of the other kinds, and taking out
  -- revocations, refuses no server.
  pub accepts-Extends :
      (key : ServerKey)
      → accepts ext (handler (new es) host port) key ≡ true
      → accepts ext (handler (new fs) host port) key ≡ true
  unfolding accepts check_server_key
  accepts-Extends (plain_key k) h =
      rw (check_public_key-decide ext host port fs k)
        (found-Leads _ _ _ (lookup_of k) (rw (check_public_key-decide ext host port es k) at h))
  accepts-Extends (certificate c) h = certificate-Leads c h
