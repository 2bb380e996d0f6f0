-- ===== src/Prelude/Reversed.antt =====
-- Lists backwards.
use mathlib.Core.Path.{◌≡◌, refl, sym, ap, ◌∙◌}
use mathlib.Core.List.{List, [], ◌∷◌, ◌++◌, map, append_assoc, append-nil}
use native.Mathlib.Omega.{arith}
use openrussh_client.Prelude.Lists.{length, length-append}

abbrev pub rev {ℓ} : {A : Type ℓ} → List A → List A
rev [] = []
rev (x ∷ xs) = rev xs ++ x ∷ []

pub rev-append {ℓ} : {A : Type ℓ} (xs ys : List A) → rev (xs ++ ys) ≡ rev ys ++ rev xs
rev-append [] ys = sym (append-nil (rev ys))
rev-append (x ∷ xs) ys = rw (rev-append xs ys) (append_assoc (rev ys) (rev xs) (x ∷ []))

pub rev-rev {ℓ} : {A : Type ℓ} (xs : List A) → rev (rev xs) ≡ xs
rev-rev [] = refl
rev-rev (x ∷ xs) = rev-append (rev xs) (x ∷ []) ∙ ap (λ l. x ∷ l) (rev-rev xs)

pub map-append :
    {A B : Type 0} (f : A → B) (xs ys : List A) → map f (xs ++ ys) ≡ map f xs ++ map f ys
map-append f [] ys = refl
map-append f (x ∷ xs) ys = ap (λ l. f x ∷ l) (map-append f xs ys)

pub map-rev : {A B : Type 0} (f : A → B) (xs : List A) → map f (rev xs) ≡ rev (map f xs)
map-rev f [] = refl
map-rev f (x ∷ xs) = map-append f (rev xs) (x ∷ []) ∙ ap (λ l. l ++ f x ∷ []) (map-rev f xs)

pub length-rev {ℓ} : {A : Type ℓ} (xs : List A) → length (rev xs) ≡ length xs
length-rev [] = refl
length-rev (x ∷ xs) = omega (arith, length-append (rev xs) (x ∷ []), length-rev xs)
