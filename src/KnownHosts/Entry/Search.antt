-- ===== src/KnownHosts/Entry/Search.antt =====
-- The search in the sorted entries finds what a search of all entries in any order finds.
use openrussh_client.Prelude.{
  List, [], ◌∷◌, ◌≡◌, refl, sym, ap, ◌∙◌, Bool, true, false, ◌&&◌, ◌||◌, any, arith, Bool-cases,
  inl, inr, All,
}
use openrussh_client.KnownHosts.Pattern.{HostPatterns}
use openrussh_client.KnownHosts.Entry.{
  LookupKey, pubkey, ca, lookup_lt, lookup_eq, PreparedEntry, insert, sort_by_lookup, take_while,
  contains_entry,
}

-- No entry is below the key.
abbrev pub AllFrom : LookupKey → List PreparedEntry → Type 0
AllFrom k = All (λ e. lookup_lt e.lookup k ≡ false)

abbrev pub IsSorted : List PreparedEntry → Type 0
IsSorted [] = Unit {0}
IsSorted (e ∷ es) = AllFrom e.lookup es × IsSorted es

-- `a ≤ b` and `b ≤ c` give `a ≤ c`.
from_trans :
    (a b c : LookupKey) → lookup_lt b a ≡ false → lookup_lt c b ≡ false → lookup_lt c a ≡ false
from_trans (pubkey a d) (pubkey b e) (pubkey c f) h k = ground arith
from_trans (pubkey a d) (pubkey b e) (ca f) h k = refl
from_trans (pubkey a d) (ca e) (pubkey c f) h k = ground arith
from_trans (pubkey a d) (ca e) (ca f) h k = refl
from_trans (ca d) (pubkey b e) (pubkey c f) h k = ground arith
from_trans (ca d) (pubkey b e) (ca f) h k = ground arith
from_trans (ca d) (ca e) (pubkey c f) h k = ground arith
from_trans (ca d) (ca e) (ca f) h k = ground arith

lt_asymm : (a b : LookupKey) → lookup_lt a b ≡ true → lookup_lt b a ≡ false
lt_asymm (pubkey a d) (pubkey b e) h = ground arith
lt_asymm (pubkey a d) (ca e) h = refl
lt_asymm (ca d) (pubkey b e) h = ground arith
lt_asymm (ca d) (ca e) h = ground arith

-- Below and equal exclude one another.
lt-not-eq : (a b : LookupKey) → lookup_lt a b ≡ true → lookup_eq a b ≡ false
lt-not-eq (pubkey a d) (pubkey b e) h = ground arith
lt-not-eq (pubkey a d) (ca e) h = refl
lt-not-eq (ca d) (pubkey b e) h = refl
lt-not-eq (ca d) (ca e) h = ground arith

-- From an entry above the key on, no entry has the key.
above-not-eq :
    (k a b : LookupKey)
    → lookup_lt a k ≡ false
    → lookup_eq a k ≡ false
    → lookup_lt b a ≡ false
    → lookup_eq b k ≡ false
above-not-eq (pubkey k d) (pubkey a e) (pubkey b f) p q r = ground arith
above-not-eq (pubkey k d) (pubkey a e) (ca f) p q r = refl
above-not-eq (pubkey k d) (ca e) (pubkey b f) p q r = ground arith
above-not-eq (pubkey k d) (ca e) (ca f) p q r = refl
above-not-eq (ca d) (pubkey a e) (pubkey b f) p q r = refl
above-not-eq (ca d) (pubkey a e) (ca f) p q r = ground arith
above-not-eq (ca d) (ca e) (pubkey b f) p q r = refl
above-not-eq (ca d) (ca e) (ca f) p q r = ground arith

pub from_all :
    (a b : LookupKey) (es : List PreparedEntry)
    → lookup_lt b a ≡ false
    → AllFrom b es
    → AllFrom a es
from_all a b [] h k = tt
from_all a b (e ∷ es) h (p, k) = (from_trans a b e.lookup h p, from_all a b es h k)

insert-AllFrom :
    (k : LookupKey) (e : PreparedEntry) (es : List PreparedEntry)
    → lookup_lt e.lookup k ≡ false
    → AllFrom k es
    → AllFrom k (insert e es)
unfolding insert
insert-AllFrom k e [] h a = (h, tt)
insert-AllFrom k e (x ∷ xs) h (p, a) = elim (Bool-cases (lookup_lt x.lookup e.lookup)) [
  | inl l ↦ rw l (p, insert-AllFrom k e xs h a)
  | inr l ↦ rw l (h, (p, a))
]

insert-IsSorted :
    (e : PreparedEntry) (es : List PreparedEntry) → IsSorted es → IsSorted (insert e es)
unfolding insert
insert-IsSorted e [] s = (tt, tt)
insert-IsSorted e (x ∷ xs) (a, s) = elim (Bool-cases (lookup_lt x.lookup e.lookup)) [
  | inl l ↦
      rw l (insert-AllFrom x.lookup e xs (lt_asymm x.lookup e.lookup l) a, insert-IsSorted e xs s)
  | inr l ↦ rw l ((l, from_all e.lookup x.lookup xs l a), (a, s))
]

pub sort-IsSorted : (es : List PreparedEntry) → IsSorted (sort_by_lookup es)
unfolding sort_by_lookup
sort-IsSorted [] = tt
sort-IsSorted (e ∷ es) = insert-IsSorted e (sort_by_lookup es) (sort-IsSorted es)

any-insert :
    (p : PreparedEntry → Bool) (e : PreparedEntry) (es : List PreparedEntry)
    → any p (insert e es) ≡ p e || any p es
unfolding insert
any-insert p e [] = refl
any-insert p e (x ∷ xs) = ground (arith, any-insert p e xs)

pub any-sort :
    (p : PreparedEntry → Bool) (es : List PreparedEntry) → any p (sort_by_lookup es) ≡ any p es
unfolding sort_by_lookup
any-sort p [] = refl
any-sort p (e ∷ es) = any-insert p e (sort_by_lookup es) ∙ ap (λ b. p e || b) (any-sort p es)

module _ (matched : HostPatterns → Bool) (k : LookupKey) where
  abbrev pub hits : PreparedEntry → Bool
  hits e = lookup_eq e.lookup k && matched e.hosts

  no_hits :
      (a : LookupKey) (es : List PreparedEntry)
      → lookup_lt a k ≡ false
      → lookup_eq a k ≡ false
      → AllFrom a es
      → any hits es ≡ false
  no_hits a [] p q h = refl
  no_hits a (e ∷ es) p q (r, h) = rw (above-not-eq k a e.lookup p q r) (no_hits a es p q h)

  -- `take_while` and `any` from the first entry that is not below the key.
  any-take_while :
      (es : List PreparedEntry)
      → AllFrom k es
      → IsSorted es
      → any (λ e. matched e.hosts) (take_while (λ e. lookup_eq e.lookup k) es) ≡ any hits es
  unfolding take_while
  any-take_while [] a s = refl
  any-take_while (e ∷ es) (p, a) (r, s) = elim (Bool-cases (lookup_eq e.lookup k)) [
    | inl q ↦ rw q (ap (λ b. matched e.hosts || b) (any-take_while es a s))
    | inr q ↦ rw q (sym (no_hits e.lookup es p q r))
  ]

  -- On sorted entries the search and the scan of the run of equal keys find an entry exactly
  -- if some entry has the key and matches the host.
  contains_entry-any :
      (es : List PreparedEntry) → IsSorted es → contains_entry matched es k ≡ any hits es
  unfolding contains_entry
  contains_entry-any [] s = refl
  contains_entry-any (e ∷ es) (r, s) = elim (Bool-cases (lookup_lt e.lookup k)) [
    | inl l ↦ rw (l, lt-not-eq e.lookup k l) (contains_entry-any es s)
    | inr l ↦ rw l (any-take_while (e ∷ es) (l, from_all k e.lookup es l r) (r, s))
  ]

-- On the entries sorted by key, the search finds an entry exactly if some entry of the original list,
-- in whatever order they stood, has the key and matches the host.
pub contains_entry-sort :
    (matched : HostPatterns → Bool) (es : List PreparedEntry) (k : LookupKey)
    → contains_entry matched (sort_by_lookup es) k ≡ any (hits matched k) es
contains_entry-sort matched es k =
    contains_entry-any matched k (sort_by_lookup es) (sort-IsSorted es)
    ∙ any-sort (hits matched k) es
