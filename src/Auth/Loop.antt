-- ===== src/Auth/Loop.antt =====
-- Attempts one after the other until one does not fail: the shape of the loops of
-- `Authenticator::all_in_agent` (src/auth.rs) and of `auth` (src/connect.rs).
use openrussh_client.Prelude.{List, [], ◌∷◌, ◌++◌, ◌≡◌, ◌≢◌, ◌⊎◌, inl, inr, refl, ap, ok, err}
use openrussh_client.Auth.Reply.{Tried, success, failure}

-- What follows an attempt: `?` returns an error, a success returns, and a failure goes on.
abbrev pub go_on : {S : Type 0} → (S → Tried × S) → Tried × S → Tried × S
go_on rest (err e, s) = (err e, s)
go_on rest (ok success, s) = (ok success, s)
go_on rest (ok failure, s) = rest s

module _ {S A : Type 0} (attempt : A → S → Tried × S) where
  unfoldable pub try_each : List A → S → Tried × S
  try_each [] s = (ok failure, s)
  try_each (x ∷ xs) s = go_on (try_each xs) (attempt x s)

  -- Each attempt fails, and they lead from the first state to the second.
  abbrev pub Fail : List A → S → S → Type 0
  Fail [] s u = s ≡ u
  Fail (x ∷ xs) s u = (t : S) × (attempt x s ≡ (ok failure, t)) × Fail xs t u

  -- The result is that of one attempt, behind others that have failed, and it is not a failure.
  abbrev pub DecidedBy : List A → S → Tried × S → Type 0
  DecidedBy xs s r =
      (before : List A) × (x : A) × (after : List A) × (t : S) × (xs ≡ before ++ x ∷ after)
      × Fail before s t
      × (attempt x t ≡ r)
      × (r.0 ≢ ok failure)

  abbrev pub Outcome : List A → S → Tried × S → Type 0
  Outcome xs s r = ((r.0 ≡ ok failure) × Fail xs s r.1) ⊎ DecidedBy xs s r

  Outcome-cons :
      (x : A) (xs : List A) (s : S)
      → ((t : S) → Outcome xs t (try_each xs t))
      → (p : Tried × S) → attempt x s ≡ p
      → Outcome (x ∷ xs) s (go_on (try_each xs) p)
  Outcome-cons x xs s rest (err e, t) h = inr ([], x, xs, s, refl, refl, h, λ q. cc)
  Outcome-cons x xs s rest (ok success, t) h = inr ([], x, xs, s, refl, refl, h, λ q. cc)
  Outcome-cons x xs s rest (ok failure, t) h = elim (rest t) [
    | inl (e, f) ↦ inl (e, (t, h, f))
    | inr (before, y, after, u, e, f, g, d) ↦
        inr (x ∷ before, y, after, u, ap (λ l. x ∷ l) e, (t, h, f), g, d)
  ]

  pub try_each-Outcome : (xs : List A) (s : S) → Outcome xs s (try_each xs s)
  unfolding try_each
  try_each-Outcome [] s = inl (refl, refl)
  try_each-Outcome (x ∷ xs) s = Outcome-cons x xs s (try_each-Outcome xs) (attempt x s) refl
