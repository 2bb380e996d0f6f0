-- ===== src/KnownHosts/Handler/WellFormed.antt =====
-- The invariant of `KnownHosts` that `new` establishes (src/known_hosts.rs).
use openrussh_client.Prelude.{
  List, [], ◌∷◌, ◌≡◌, refl, ◌∙◌, Bool, true, false, not, ◌&&◌, Option, none, some, any, arith,
  Bool-cases, inl, inr,
}
use openrussh_client.KnownHosts.Alg.{sig_other, from_alg, alg_eq}
use openrussh_client.KnownHosts.Entry.{of_alg, has_alg, PreparedEntry, sort_by_lookup}
use openrussh_client.KnownHosts.Entry.Search.{IsSorted, sort-IsSorted, any-sort}
use openrussh_client.KnownHosts.Handler.{
  KnownHosts, Marker, revoked, cert_authority, Entry, push, add_marked, collect, new, sort_some,
  some_and, entries_of,
}
use openrussh_client.KnownHosts.Handler.Loaded.{trusts, collect-trusted, some_and-sort}

abbrev empty : KnownHosts
empty = record { trusted_keys = none; revoked_keys = none }

any-entries_of :
    (p : PreparedEntry → Bool) (o : Option (List PreparedEntry))
    → any p (entries_of o) ≡ some_and (any p) o
any-entries_of p none = refl
any-entries_of p (some es) = refl

-- A test of the trusted entries is one of the lines.
pub any-trusted :
    (p : PreparedEntry → Bool) (es : List Entry)
    → any p (entries_of (new es).trusted_keys) ≡ any (λ e. trusts p e.marker e) es
unfolding new
any-trusted p es =
    any-entries_of p (sort_some (collect es empty).trusted_keys)
    ∙ some_and-sort p (collect es empty).trusted_keys
    ∙ collect-trusted p es empty

trusts_other : (o : Option Marker) (e : Entry) → trusts (λ p. of_alg sig_other p.lookup) o e ≡ false
trusts_other none e = opposite (alg_eq (from_alg e.public_key.algorithm) sig_other)
  where
    opposite : (a : Bool) → not a && a ≡ false
    opposite a = ground arith
trusts_other (some revoked) e = refl
trusts_other (some cert_authority) e = refl

any-false : (p : Entry → Bool) → ((e : Entry) → p e ≡ false) → (ls : List Entry) → any p ls ≡ false
any-false p h [] = refl
any-false p h (e ∷ ls) = rw (h e) (any-false p h ls)

IsSorted-some : (o : Option (List PreparedEntry)) → IsSorted (entries_of (sort_some o))
IsSorted-some none = tt
IsSorted-some (some es) = sort-IsSorted es

-- No list without entries.
abbrev pub IsFilled : Option (List PreparedEntry) → Type 0
IsFilled none = Unit
IsFilled (some []) = ⊥
IsFilled (some (e ∷ es)) = Unit

push-IsFilled : (e : PreparedEntry) (o : Option (List PreparedEntry)) → IsFilled (push e o)
push-IsFilled e none = tt
push-IsFilled e (some []) = tt
push-IsFilled e (some (x ∷ es)) = tt

abbrev BothFilled : KnownHosts → Type 0
BothFilled k = IsFilled k.trusted_keys × IsFilled k.revoked_keys

add_marked-BothFilled :
    (m : Option Marker) (e : Entry) (k : KnownHosts) → BothFilled k → BothFilled (add_marked m e k)
add_marked-BothFilled (some revoked) e k (t, r) = (t, push-IsFilled _ k.revoked_keys)
add_marked-BothFilled (some cert_authority) e k (t, r) = (push-IsFilled _ k.trusted_keys, r)
add_marked-BothFilled none e k (t, r) =
    elim (Bool-cases (alg_eq (from_alg e.public_key.algorithm) sig_other)) [
      | inl o ↦ rw o (t, r)
      | inr o ↦ rw o (push-IsFilled _ k.trusted_keys, r)
    ]

collect-BothFilled : (es : List Entry) (k : KnownHosts) → BothFilled k → BothFilled (collect es k)
unfolding collect
collect-BothFilled [] k f = f
collect-BothFilled (e ∷ es) k f =
    collect-BothFilled es (add_marked e.marker e k) (add_marked-BothFilled e.marker e k f)

any-IsFilled : (es : List PreparedEntry) → any (λ e. true) es ≡ true → IsFilled (some es)
any-IsFilled [] h = absurd cc
any-IsFilled (e ∷ es) h = tt

sort-IsFilled : (o : Option (List PreparedEntry)) → IsFilled o → IsFilled (sort_some o)
sort-IsFilled none f = tt
sort-IsFilled (some []) f = absurd f
sort-IsFilled (some (e ∷ es)) f =
    any-IsFilled (sort_by_lookup (e ∷ es)) (any-sort (λ e. true) (e ∷ es))

pub record IsWellFormed (k : KnownHosts) : Type 0 where
  pub trusted_sorted : IsSorted (entries_of k.trusted_keys)
  pub revoked_sorted : IsSorted (entries_of k.revoked_keys)
  pub trusted_filled : IsFilled k.trusted_keys
  pub revoked_filled : IsFilled k.revoked_keys
  pub trusted_named : has_alg sig_other (entries_of k.trusted_keys) ≡ false

-- On any lines `new` gives known hosts whose trusted and revoked entries are each sorted by their
-- lookup key and not an empty list, and whose trusted public keys are all of an algorithm that has
-- a name.
pub new-IsWellFormed : (es : List Entry) → IsWellFormed (new es)
unfolding new
new-IsWellFormed es =
    let filled = collect-BothFilled es empty (tt, tt) in
    record {
      trusted_sorted = IsSorted-some (collect es empty).trusted_keys;
      revoked_sorted = IsSorted-some (collect es empty).revoked_keys;
      trusted_filled = sort-IsFilled (collect es empty).trusted_keys filled.0;
      revoked_filled = sort-IsFilled (collect es empty).revoked_keys filled.1;
      trusted_named =
          any-trusted (λ p. of_alg sig_other p.lookup) es
          ∙ any-false _ (λ e. trusts_other e.marker e) es;
    }
