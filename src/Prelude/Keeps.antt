-- ===== src/Prelude/Keeps.antt =====
-- What code over a state keeps, whether it returns or fails: a rule for each way to build such code.
use mathlib.Core.Bool.{Bool, true, false}
use openrussh_client.Prelude.Tests.{if◌then◌else◌}
use openrussh_client.Prelude.Effects.{Result, ok, err, M, bind_pair, ◌>>=◌, map_err_pair, on_err}

pub record Keeps {S B : Type 0} (P : S → Type 0) (m : S → B × S) : Type 0 where
  pub at : (s : S) → P s → P (m s).1

-- Code that only returns.
pub Keeps-return : {S B : Type 0} {P : S → Type 0} (r : B) → Keeps P (λ s. (r, s))
Keeps-return r = record { at = λ s h. h }

pub Keeps-if :
    {S B : Type 0} {P : S → Type 0} (b : Bool) (p q : B)
    → Keeps P (λ s. if b then (p, s) else (q, s))
Keeps-if true p q = Keeps-return p
Keeps-if false p q = Keeps-return q

module _ {S E A : Type 0} {P : S → Type 0} where
  pub Keeps-on_err : {F : Type 0} (f : E → F) (m : M S E A) → Keeps P m → Keeps P (on_err f m)
  Keeps-on_err {F} f m k = record { at = λ s h. after (m s) (k.at s h) }
    where
      after : (r : Result E A × S) → P r.1 → P (map_err_pair f r).1
      after (ok a, t) h = h
      after (err e, t) h = h

module _ {S E A B : Type 0} {P : S → Type 0} where
  pub Keeps-bind :
      (m : M S E A) (f : A → M S E B) → Keeps P m → ((a : A) → Keeps P (f a)) → Keeps P (m >>= f)
  Keeps-bind m f km kf = record { at = λ s h. after (m s) (km.at s h) }
    where
      after : (r : Result E A × S) → P r.1 → P (bind_pair f r).1
      after (ok a, t) h = (kf a).at t h
      after (err e, t) h = h

pub ruleset keeps_rules = (Keeps-return, Keeps-if, Keeps-on_err, Keeps-bind)
