-- ===== src/Escape/Sequence.antt =====
-- Tuples, slices and `Concat` of literal arguments are literal: the shell reads their components
-- one behind the other, as one text.
use openrussh_client.Prelude.{
  Text, List, [], ◌∷◌, ◌++◌, append_assoc, append-nil, ◌≡◌, sym, ap, ◌∙◌, Bool, true, ◌&&◌, arith,
  all,
}
use openrussh_client.Shell.Run.{Reads, read, Reads-append}
use openrussh_client.Escape.{SurroundBy, Escaper}
use openrussh_client.Escape.Bytes.{append, append_twice, append_nothing}
use openrussh_client.Escape.Arg.{Arg, write_items, only_arg, cons_arg, list_arg, concat_arg}
use openrussh_client.Escape.Reading.{quoted, Literal}

and_left : (a b : Bool) → (a && b) ≡ true → a ≡ true
and_left a b h = ground arith

and_right : (a b : Bool) → (a && b) ≡ true → b ≡ true
and_right a b h = ground arith

module _ {A B : Type 0} ⦃a : Arg A⦄ ⦃b : Arg B⦄ ⦃la : Literal a⦄ ⦃lb : Literal b⦄ where
  pub cons-writes :
      (x : A) (y : B) (e : Escaper)
      → b.write y (a.write x e) ≡ append e (la.output e.surr x ++ lb.output e.surr y)
  unfolding append
  cons-writes x y e =
      ap (b.write y) (la.writes x e)
      ∙ lb.writes y (append e (la.output e.surr x))
      ∙ append_twice e (la.output e.surr x) (lb.output e.surr y)

  pub cons-Reads :
      (x : A) (y : B) (r : SurroundBy) (w : Text)
      → (la.is_valid x && lb.is_valid y) ≡ true
      → Reads
          (quoted r w)
          (la.output r x ++ lb.output r y)
          []
          (quoted r (w ++ (la.value x ++ lb.value y)))
  cons-Reads x y r w h = rw (← append_assoc w (la.value x) (lb.value y)) (
      Reads-append (quoted r w) (la.output r x) (lb.output r y) (la.reads x r w (and_left _ _ h))
        (lb.reads y r (w ++ la.value x) (and_right _ _ h)))

module _ {A : Type 0} ⦃a : Arg A⦄ ⦃la : Literal a⦄ where
  abbrev pub items_valid : List A → Bool
  items_valid = all la.is_valid

  abbrev pub items_value : List A → Text
  items_value [] = []
  items_value (x ∷ xs) = la.value x ++ items_value xs

  abbrev pub items_output : SurroundBy → List A → Text
  items_output r [] = []
  items_output r (x ∷ xs) = la.output r x ++ items_output r xs

  pub items-writes :
      (xs : List A) (e : Escaper) → write_items a xs e ≡ append e (items_output e.surr xs)
  unfolding write_items append
  items-writes [] e = sym (append_nothing e)
  items-writes (x ∷ xs) e =
      ap (write_items a xs) (la.writes x e)
      ∙ items-writes xs (append e (la.output e.surr x))
      ∙ append_twice e (la.output e.surr x) (items_output e.surr xs)

  pub items-Reads :
      (xs : List A) (r : SurroundBy) (w : Text)
      → items_valid xs ≡ true
      → Reads (quoted r w) (items_output r xs) [] (quoted r (w ++ items_value xs))
  unfolding read
  items-Reads [] r w h = rw (append-nil w)
  items-Reads (x ∷ xs) r w h = rw (← append_assoc w (la.value x) (items_value xs)) (
      Reads-append (quoted r w) (la.output r x) (items_output r xs)
        (la.reads x r w (and_left _ _ h)) (items-Reads xs r (w ++ la.value x) (and_right _ _ h)))

instance abbrev pub only_literal :
    {A : Type 0} ⦃a : Arg A⦄ ⦃la : Literal a⦄ → Literal (only_arg {A = A})
only_literal ⦃a⦄ ⦃la⦄ = record {
  is_valid = λ t. la.is_valid t.component;
  value = λ t. la.value t.component;
  output = λ r t. la.output r t.component;
  writes = λ t e. la.writes t.component e;
  reads = λ t r w h. la.reads t.component r w h;
}

instance abbrev pub cons_literal :
    {A B : Type 0} ⦃a : Arg A⦄ ⦃b : Arg B⦄ ⦃la : Literal a⦄ ⦃lb : Literal b⦄
    → Literal (cons_arg {A = A} {B = B})
cons_literal ⦃a⦄ ⦃b⦄ ⦃la⦄ ⦃lb⦄ = record {
  is_valid = λ t. la.is_valid t.component && lb.is_valid t.rest;
  value = λ t. la.value t.component ++ lb.value t.rest;
  output = λ r t. la.output r t.component ++ lb.output r t.rest;
  writes = λ t e. cons-writes t.component t.rest e;
  reads = λ t r w h. cons-Reads t.component t.rest r w h;
}

instance abbrev pub list_literal :
    {A : Type 0} ⦃a : Arg A⦄ ⦃la : Literal a⦄ → Literal (list_arg {A = A})
list_literal ⦃a⦄ ⦃la⦄ = record {
  is_valid = items_valid;
  value = items_value;
  output = items_output;
  writes = items-writes;
  reads = items-Reads;
}

instance abbrev pub concat_literal :
    {A : Type 0} ⦃a : Arg A⦄ ⦃la : Literal a⦄ → Literal (concat_arg {A = A})
concat_literal ⦃a⦄ ⦃la⦄ = record {
  is_valid = λ c. items_valid c.items;
  value = λ c. items_value c.items;
  output = λ r c. items_output r c.items;
  writes = λ c e. items-writes c.items e;
  reads = λ c r w h. items-Reads c.items r w h;
}
