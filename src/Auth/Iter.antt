-- ===== src/Auth/Iter.antt =====
-- `AuthMethodsIter` of src/auth.rs.
use openrussh_client.Prelude.{ℕ, zero, suc, List, [], ◌∷◌, ◌≡◌, refl, Option, none, some, length}
use openrussh_client.Auth.{AuthMethod, AuthMethods}
use openrussh_client.Auth.{iter as iter_methods}

-- The methods that are left, once or copied from the slice.
pub record AuthMethodsIter : Type 0 where
  pub inner : List AuthMethod

-- `AuthMethods::iter`
abbrev pub iter : AuthMethods → AuthMethodsIter
iter methods = record { inner = iter_methods methods }

abbrev next_of : List AuthMethod → Option AuthMethod × AuthMethodsIter
next_of [] = (none, record { inner = [] })
next_of (m ∷ ms) = (some m, record { inner = ms })

-- `Iterator::next`, `Iterator::size_hint` and `ExactSizeIterator::len`
unfoldable pub next : AuthMethodsIter → Option AuthMethod × AuthMethodsIter
next it = next_of it.inner

abbrev pub len : AuthMethodsIter → ℕ
len it = length it.inner

abbrev pub size_hint : AuthMethodsIter → ℕ × Option ℕ
size_hint it = (len it, some (len it))

-- What the next `n` calls give, and that nothing is left behind them.
abbrev Gives : ℕ → List AuthMethod → AuthMethodsIter → Type 0
Gives zero ms it = (ms ≡ []) × ((next it).0 ≡ none)
Gives (suc n) ms it =
    (m : AuthMethod) × (rest : List AuthMethod) × (ms ≡ m ∷ rest)
    × ((next it).0 ≡ some m)
    × Gives n rest (next it).1

-- The iterator gives as many methods as `len` says, in the order of the stack, and then ends.
next-Gives : (ms : List AuthMethod) → Gives (length ms) ms (record { inner = ms })
unfolding next
next-Gives [] = (refl, refl)
next-Gives (m ∷ ms) = (m, ms, refl, refl, next-Gives ms)
