-- ===== src/Prelude/Effects.antt =====
-- Results with errors, and code that may fail over a state: the `async fn`s of the program, with the
-- state of what they talk to passed on explicitly.
use mathlib.Core.Option.{Option, none, some}
use mathlib.Core.Path.{◌≡◌, refl}

pub data Result {ℓ κ} (E : Type κ) (A : Type ℓ) : Type (ℓ ⊔ κ) where
  ok : A → Result E A
  err : E → Result E A

abbrev pub M : Type 0 → Type 0 → Type 0 → Type 0
M S E A = S → Result E A × S

abbrev pub pure : {S E A : Type 0} → A → M S E A
pure a s = (ok a, s)

abbrev pub fail : {S E A : Type 0} → E → M S E A
fail e s = (err e, s)

abbrev pub bind_pair : {S E A B : Type 0} → (A → M S E B) → Result E A × S → Result E B × S
bind_pair f (ok a, s) = f a s
bind_pair f (err e, s) = (err e, s)

-- `?` on what is awaited.
infixl 5 ◌>>=◌ ◌>>◌
abbrev pub ◌>>=◌ : {S E A B : Type 0} → M S E A → (A → M S E B) → M S E B
◌>>=◌ m f s = bind_pair f (m s)

abbrev pub ◌>>◌ : {S E B : Type 0} → M S E (Unit {0}) → M S E B → M S E B
m >> k = m >>= λ _. k

-- `map_err`
abbrev pub map_err : {E F A : Type 0} → (E → F) → Result E A → Result F A
map_err f (ok a) = ok a
map_err f (err e) = err (f e)

-- A call that reports its failure as `none`, with the error that it is mapped to.
abbrev pub or_err_pair : {S E A : Type 0} → E → Option A × S → Result E A × S
or_err_pair e (none, s) = (err e, s)
or_err_pair e (some a, s) = (ok a, s)

abbrev pub or_err : {S E A : Type 0} → E → (S → Option A × S) → M S E A
or_err e m s = or_err_pair e (m s)

abbrev pub map_err_pair : {S E F A : Type 0} → (E → F) → Result E A × S → Result F A × S
map_err_pair f (ok a, s) = (ok a, s)
map_err_pair f (err e, s) = (err (f e), s)

abbrev pub on_err : {S E F A : Type 0} → (E → F) → M S E A → M S F A
on_err f m s = map_err_pair f (m s)

-- The two ways that a call can end.
pub data Ended {E A S : Type 0} (p : Result E A × S) : Type 0 where
  ended_ok : (a : A) → (t : S) → p ≡ (ok a, t) → Ended p
  ended_err : (e : E) → (t : S) → p ≡ (err e, t) → Ended p

abbrev pub ended : {E A S : Type 0} (p : Result E A × S) → Ended p
ended (ok a, t) = ended_ok a t refl
ended (err e, t) = ended_err e t refl
