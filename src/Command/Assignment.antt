-- ===== src/Command/Assignment.antt =====
-- What a shell reads from an environment assignment in front of a command.
use openrussh_client.Prelude.{
  ℕ, Text, codes, [], ◌∷◌, ◌++◌, append_assoc, append-nil, ◌≡◌, refl, Bool, true, false, some,
  some_inj, all, arith, if◌then◌else◌, Bool-cases, inl, inr,
}
use mathlib.Core.Path.{subst}
use openrussh_client.Shell.{between, unquoted, word, step}
use openrussh_client.Shell.Run.{Reads, read, Reads-append, Reads-cons}
use openrussh_client.Escape.{SurroundBy}
use openrussh_client.Escape.Arg.{Arg}
use openrussh_client.Escape.Reading.{Literal, quoted}
use openrussh_client.Command.{escape}
use openrussh_client.Command.Key.Name.{is_letter, is_name_byte, take_while, name_prefix}
use openrussh_client.Command.Builder.{env_at}
use openrussh_client.Command.Reading.{surr_of, mark, quoted_text, escape-output, Reads-quoted_text}

-- A name: a letter, and name bytes behind it.
abbrev pub IsName : Text → Type 0
IsName [] = ⊥
IsName (b ∷ bs) = (is_letter b ≡ true) × (all is_name_byte bs ≡ true)

all-take_while : (s : Text) → all is_name_byte (take_while is_name_byte s) ≡ true
all-take_while [] = refl
all-take_while (b ∷ s) = elim (Bool-cases (is_name_byte b)) [
  | inl n ↦ rw n (rw n (all-take_while s))
  | inr n ↦ rw n
]

pub name_prefix-IsName : (key k : Text) → name_prefix key ≡ some k → IsName k
name_prefix-IsName [] k h = cc
name_prefix-IsName (b ∷ s) k h = elim (Bool-cases (is_letter b)) [
  | inl l ↦
      let e : some (b ∷ take_while is_name_byte s) ≡ some k = rw l at h in
      subst IsName (some_inj e) (l, all-take_while s)
  | inr l ↦ cc l
]

step_name :
    (w : Text) (b : ℕ)
    → is_name_byte b ≡ true
    → step (unquoted false w) b ≡ some ([], unquoted false (w ++ b ∷ []))
unfolding step
step_name w b h = ground arith

start_name : (b : ℕ) → is_letter b ≡ true → step between b ≡ some ([], unquoted false (b ∷ []))
unfolding step
start_name b h = ground arith

Reads-name :
    (w s : Text)
    → all is_name_byte s ≡ true
    → Reads (unquoted false w) s [] (unquoted false (w ++ s))
unfolding read
Reads-name w [] h = rw (append-nil w)
Reads-name w (b ∷ s) h = rw (← append_assoc w (b ∷ []) s) (
    Reads-cons (unquoted false w) b s (step_name w b (ground arith))
      (Reads-name (w ++ b ∷ []) s (ground arith)))

step_equals : (w : Text) → step (unquoted false w) b'=' ≡ some ([], unquoted false (w ++ codes "="))
unfolding step
step_equals w = refl

step_quote :
    (d : Bool) (w : Text) → step (unquoted false w) (mark d) ≡ some ([], quoted (surr_of d) w)
unfolding step
step_quote true w = refl
step_quote false w = refl

module _ {A : Type 0} (a : Arg A) (la : Literal a) where
  pub assignment_text : Text → A → Text
  assignment_text k x = k ++ (b'=' ∷ quoted_text a la x ++ codes " ")

  pub env_at-text :
      (k : Text) (x : A) (buf : Text) → env_at a buf x (some k) ≡ buf ++ assignment_text k x
  unfolding env_at assignment_text
  env_at-text k x buf = go a.need_double
    where
      go :
          (d : Bool)
          → (if d
              then escape a SurroundBy.double x ((buf ++ k) ++ codes "=\"") ++ codes "\" "
              else escape a SurroundBy.single x ((buf ++ k) ++ codes "='") ++ codes "' ")
            ≡ buf ++ (k ++ (b'=' ∷ (mark d ∷ la.output (surr_of d) x ++ mark d ∷ []) ++ codes " "))
      go true = simp (escape-output a la, append_assoc)
      go false = simp (escape-output a la, append_assoc)

  -- An assignment is one word, the name, `=` and the value.
  pub Reads-assignment :
      (k : Text) (x : A)
      → IsName k
      → la.is_valid x ≡ true
      → Reads between (assignment_text k x) (word (k ++ (b'=' ∷ la.value x)) ∷ []) between
  unfolding assignment_text
  Reads-assignment [] x n v = absurd n
  Reads-assignment (b ∷ bs) x (l, n) v =
      let w : Text = b ∷ bs ++ codes "=" in
      rw (← append_assoc bs (codes "=") (la.value x)) (
        Reads-cons between b (bs ++ (b'=' ∷ quoted_text a la x ++ codes " ")) (start_name b l) (
          Reads-append (unquoted false (b ∷ [])) bs (b'=' ∷ quoted_text a la x ++ codes " ")
            (Reads-name (b ∷ []) bs n)
            (Reads-cons (unquoted false (b ∷ bs)) b'=' (quoted_text a la x ++ codes " ")
              (step_equals (b ∷ bs))
              (Reads-quoted_text a la (unquoted false w) [] w x v (step_quote a.need_double w)))))
