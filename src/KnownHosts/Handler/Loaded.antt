-- ===== src/KnownHosts/Handler/Loaded.antt =====
-- What the entries of `KnownHosts::new` have in common with the lines (src/known_hosts.rs).
use openrussh_client.Prelude.{
  List, [], ◌∷◌, ◌++◌, ◌≡◌, refl, sym, ap, ◌∙◌, Bool, true, false, not, ◌&&◌, ◌||◌, Option, none,
  some, any, arith, Bool-cases, inl, inr,
}
use openrussh_client.KnownHosts.Alg.{sig_other, from_alg, alg_eq}
use openrussh_client.KnownHosts.Pattern.{HostPatterns}
use openrussh_client.KnownHosts.Entry.{LookupKey, ca, PreparedEntry, contains_entry}
use openrussh_client.KnownHosts.Entry.Search.{contains_entry-sort, any-sort, hits}
use openrussh_client.KnownHosts.Handler.{
  Marker, revoked, cert_authority, Entry, KnownHosts, push, lookup_of, add_marked, collect,
  sort_some, some_and,
}

-- A test on the prepared entry that a line without a marker or with one gives, if it gives one.
abbrev pub trusts : (PreparedEntry → Bool) → Option Marker → Entry → Bool
trusts p (some revoked) e = false
trusts p (some cert_authority) e = p (record { lookup = ca e.public_key.digest; hosts = e.hosts })
trusts p none e =
    not (alg_eq (from_alg e.public_key.algorithm) sig_other)
    && p (record { lookup = lookup_of e.public_key; hosts = e.hosts })

abbrev pub revokes : (PreparedEntry → Bool) → Option Marker → Entry → Bool
revokes p (some revoked) e = p (record { lookup = lookup_of e.public_key; hosts = e.hosts })
revokes p (some cert_authority) e = false
revokes p none e = false

any-append :
    (p : PreparedEntry → Bool) (xs ys : List PreparedEntry)
    → any p (xs ++ ys) ≡ any p xs || any p ys
any-append p [] ys = refl
any-append p (x ∷ xs) ys = ground (arith, any-append p xs ys)

or_assoc : (a b c : Bool) → (a || b) || c ≡ a || (b || c)
or_assoc true b c = refl
or_assoc false b c = refl

or_false_right : (a : Bool) → a || false ≡ a
or_false_right true = refl
or_false_right false = refl

some_and-push :
    (p : PreparedEntry → Bool) (e : PreparedEntry) (o : Option (List PreparedEntry))
    → some_and (any p) (push e o) ≡ some_and (any p) o || p e
some_and-push p e none = or_false_right (p e)
some_and-push p e (some es) =
    any-append p es (e ∷ []) ∙ ap (λ b. any p es || b) (or_false_right (p e))

add_marked-trusted :
    (p : PreparedEntry → Bool) (m : Option Marker) (e : Entry) (k : KnownHosts)
    → some_and (any p) (add_marked m e k).trusted_keys
      ≡ some_and (any p) k.trusted_keys || trusts p m e
add_marked-trusted p (some revoked) e k = sym (or_false_right _)
add_marked-trusted p (some cert_authority) e k = some_and-push p _ k.trusted_keys
add_marked-trusted p none e k =
    elim (Bool-cases (alg_eq (from_alg e.public_key.algorithm) sig_other)) [
      | inl h ↦ rw h (sym (or_false_right _))
      | inr h ↦ rw h (some_and-push p _ k.trusted_keys)
    ]

add_marked-revoked :
    (p : PreparedEntry → Bool) (m : Option Marker) (e : Entry) (k : KnownHosts)
    → some_and (any p) (add_marked m e k).revoked_keys
      ≡ some_and (any p) k.revoked_keys || revokes p m e
add_marked-revoked p (some revoked) e k = some_and-push p _ k.revoked_keys
add_marked-revoked p (some cert_authority) e k = sym (or_false_right _)
add_marked-revoked p none e k =
    elim (Bool-cases (alg_eq (from_alg e.public_key.algorithm) sig_other)) [
      | inl h ↦ rw h (sym (or_false_right _))
      | inr h ↦ rw h (sym (or_false_right _))
    ]

pub collect-trusted :
    (p : PreparedEntry → Bool) (es : List Entry) (k : KnownHosts)
    → some_and (any p) (collect es k).trusted_keys
      ≡ some_and (any p) k.trusted_keys || any (λ e. trusts p e.marker e) es
unfolding collect
collect-trusted p [] k = sym (or_false_right _)
collect-trusted p (e ∷ es) k =
    collect-trusted p es (add_marked e.marker e k)
    ∙ ap (λ b. b || any (λ e. trusts p e.marker e) es) (add_marked-trusted p e.marker e k)
    ∙ or_assoc (some_and (any p) k.trusted_keys) (trusts p e.marker e) _

pub collect-revoked :
    (p : PreparedEntry → Bool) (es : List Entry) (k : KnownHosts)
    → some_and (any p) (collect es k).revoked_keys
      ≡ some_and (any p) k.revoked_keys || any (λ e. revokes p e.marker e) es
unfolding collect
collect-revoked p [] k = sym (or_false_right _)
collect-revoked p (e ∷ es) k =
    collect-revoked p es (add_marked e.marker e k)
    ∙ ap (λ b. b || any (λ e. revokes p e.marker e) es) (add_marked-revoked p e.marker e k)
    ∙ or_assoc (some_and (any p) k.revoked_keys) (revokes p e.marker e) _

pub some_and-contains :
    (matched : HostPatterns → Bool) (o : Option (List PreparedEntry)) (k : LookupKey)
    → some_and (λ es. contains_entry matched es k) (sort_some o) ≡ some_and (any (hits matched k)) o
some_and-contains matched none k = refl
some_and-contains matched (some es) k = contains_entry-sort matched es k

pub some_and-sort :
    (p : PreparedEntry → Bool) (o : Option (List PreparedEntry))
    → some_and (any p) (sort_some o) ≡ some_and (any p) o
some_and-sort p none = refl
some_and-sort p (some es) = any-sort p es
