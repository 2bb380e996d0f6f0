-- ===== src/Shell/Run.antt =====
-- Reading a whole text, and two texts one after the other.
use mathlib.Core.Path.{fun_ext}
use openrussh_client.Prelude.{
  ℕ, Text, List, [], ◌∷◌, ◌++◌, append_assoc, append-nil, ◌≡◌, refl, Option, none, some, ap, ◌∙◌,
  sym,
}
use openrussh_client.Shell.{Token, word, op, Mode, between, operator, unquoted, Reading, step}

-- Tokens put in front of those of a reading.
abbrev pub before : List Token → Reading → Reading
before ts none = none
before ts (some (us, m)) = some (ts ++ us, m)

abbrev pub bind : Reading → (Mode → Reading) → Reading
bind none f = none
bind (some (ts, m)) f = before ts (f m)

unfoldable pub read : Mode → Text → Reading
read m [] = some ([], m)
read m (c ∷ s) = bind (step m c) (λ m'. read m' s)

-- The end of the text ends a token outside quotes; an open quote is an error.
unfoldable pub finish : Mode → Option (List Token)
finish between = some []
finish (operator o) = some (op o ∷ [])
finish (unquoted q w) = some (word w ∷ [])
finish _ = none

finish_after : Reading → Option (List Token)
unfolding finish
finish_after none = none
finish_after (some (ts, m)) = elim (finish m) [ none ↦ none | some us ↦ some (ts ++ us) ]

-- The tokens of a command line.
unfoldable pub tokens : Text → Option (List Token)
unfolding read finish_after step
tokens s = finish_after (read between s)

-- From mode `m` the text `s` gives the tokens `ts` and ends in mode `m'`.
abbrev pub Reads : Mode → Text → List Token → Mode → Type 0
Reads m s ts m' = read m s ≡ some (ts, m')

before-append : (ts us : List Token) (r : Reading) → before (ts ++ us) r ≡ before ts (before us r)
before-append ts us none = refl
before-append ts us (some (vs, m)) = λ i. some (append_assoc ts us vs i, m)

bind-before :
    (ts : List Token) (r : Reading) (f : Mode → Reading)
    → bind (before ts r) f ≡ before ts (bind r f)
bind-before ts none f = refl
bind-before ts (some (us, m)) f = before-append ts us (f m)

bind_assoc : (r : Reading) (f g : Mode → Reading) → bind r (λ m. bind (f m) g) ≡ bind (bind r f) g
bind_assoc none f g = refl
bind_assoc (some (ts, m)) f g = sym (bind-before ts (f m) g)

before-nil : (r : Reading) → before [] r ≡ r
before-nil none = refl
before-nil (some (ts, m)) = refl

read-append : (m : Mode) (s t : Text) → read m (s ++ t) ≡ bind (read m s) (λ m'. read m' t)
unfolding read
read-append m [] t = sym (before-nil (read m t))
read-append m (c ∷ s) t =
    ap (bind (step m c)) (fun_ext (λ m'. read-append m' s t))
    ∙ bind_assoc (step m c) (λ m'. read m' s) (λ m'. read m' t)

pub Reads-append :
    (m : Mode) {m₁ m₂ : Mode} (s t : Text) {ts us : List Token}
    → Reads m s ts m₁
    → Reads m₁ t us m₂
    → Reads m (s ++ t) (ts ++ us) m₂
Reads-append m s t h k = rw (read-append, h) (rw k)

pub Reads-cons :
    (m : Mode) {m₁ m₂ : Mode} (c : ℕ) (s : Text) {ts us : List Token}
    → step m c ≡ some (ts, m₁)
    → Reads m₁ s us m₂
    → Reads m (c ∷ s) (ts ++ us) m₂
unfolding read
Reads-cons m c s h k = rw h (rw k)

pub tokens_lem : (s : Text) {ts : List Token} → Reads between s ts between → tokens s ≡ some ts
unfolding tokens
tokens_lem s {ts} h = rw h (ap some (append-nil ts))
