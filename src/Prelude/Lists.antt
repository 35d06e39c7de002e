-- ===== src/Prelude/Lists.antt =====
-- Lists measured by native numbers, and the predicates on lists that the components share.
use Prim.Native.Nat.{ℕ, zero, suc, ◌+◌, ◌-◌, min}
use Prim.Native.String.{String}
use mathlib.Core.Path.{◌≡◌, refl, ap, sym, ◌∙◌}
use mathlib.Core.Bool.{Bool, true, false, ◌&&◌, ◌||◌}
use mathlib.Core.List.{
  List, [], ◌∷◌, ◌++◌, reverse, reverse_aux, append_assoc, reverse-append, reverse-cons,
  reverse-reverse,
}
use native.Mathlib.Omega.{arith}
use text.Mathlib.Text.{◌==◌}

module _ {ℓ} {A : Type ℓ} where
  abbrev pub length : List A → ℕ
  length [] = 0
  length (x ∷ xs) = suc (length xs)

  abbrev pub take : ℕ → List A → List A
  take zero xs = []
  take (suc n) [] = []
  take (suc n) (x ∷ xs) = x ∷ take n xs

  abbrev pub drop : ℕ → List A → List A
  drop zero xs = xs
  drop (suc n) [] = []
  drop (suc n) (x ∷ xs) = drop n xs

  abbrev pub all : (A → Bool) → List A → Bool
  all p [] = true
  all p (x ∷ xs) = p x && all p xs

  abbrev pub any : (A → Bool) → List A → Bool
  any p [] = false
  any p (x ∷ xs) = p x || any p xs

  abbrev pub All {κ} : (A → Type κ) → List A → Type κ
  All P [] = Unit
  All P (x ∷ xs) = P x × All P xs

  pub length-append : (xs ys : List A) → length (xs ++ ys) ≡ length xs + length ys
  length-append [] ys = omega arith
  length-append (x ∷ xs) ys = omega (arith, length-append xs ys)

  pub length-reverse_aux : (xs ys : List A) → length (reverse_aux xs ys) ≡ length xs + length ys
  length-reverse_aux [] ys = omega arith
  length-reverse_aux (x ∷ xs) ys = omega (arith, length-reverse_aux xs (x ∷ ys))

module _ {ℓ} {A : Type ℓ} where
  pub length-take : (n : ℕ) (xs : List A) → length (take n xs) ≡ min n (length xs)
  length-take zero xs = omega arith
  length-take (suc n) [] = omega arith
  length-take (suc n) (x ∷ xs) = omega (arith, length-take n xs)

  pub length-drop : (n : ℕ) (xs : List A) → length (drop n xs) ≡ length xs - n
  length-drop zero xs = omega arith
  length-drop (suc n) [] = omega arith
  length-drop (suc n) (x ∷ xs) = omega (arith, length-drop n xs)

  pub take-append-drop : (n : ℕ) (xs : List A) → take n xs ++ drop n xs ≡ xs
  take-append-drop zero xs = refl
  take-append-drop (suc n) [] = refl
  take-append-drop (suc n) (x ∷ xs) = ap (λ r. x ∷ r) (take-append-drop n xs)

  pub append_step :
      (xs : List A) (x : A) (rest : List A) {ys zs : List A}
      → ys ≡ xs ++ x ∷ []
      → zs ≡ ys ++ rest
      → zs ≡ xs ++ x ∷ rest
  append_step xs x rest h g = g ∙ (ap (λ l. l ++ rest) h ∙ append_assoc xs (x ∷ []) rest)

  pub all-append : (p : A → Bool) (xs ys : List A) → all p (xs ++ ys) ≡ (all p xs && all p ys)
  all-append p [] ys = refl
  all-append p (x ∷ xs) ys = ground (arith, all-append p xs ys)

  any-append : (p : A → Bool) (xs ys : List A) → any p (xs ++ ys) ≡ (any p xs || any p ys)
  any-append p [] ys = refl
  any-append p (x ∷ xs) ys = ground (arith, any-append p xs ys)

  pub any-reverse : (p : A → Bool) (xs : List A) → any p (reverse xs) ≡ any p xs
  any-reverse p [] = refl
  any-reverse p (x ∷ xs) =
      rw reverse-cons (ground (arith, any-append p (reverse xs) (x ∷ []), any-reverse p xs))

  pub reverse-around :
      (xs ys : List A) (x : A) → reverse (xs ++ x ∷ ys) ≡ reverse ys ++ x ∷ reverse xs
  reverse-around xs ys x =
      reverse-append xs (x ∷ ys)
      ∙ (ap (λ l. l ++ reverse xs) (reverse-cons x ys)
          ∙ append_assoc (reverse ys) (x ∷ []) (reverse xs))

  -- A list whose reverse is around an entry is around the entry too.
  pub around-reverse :
      (xs ys zs : List A) (x : A) → reverse zs ≡ xs ++ x ∷ ys → zs ≡ reverse ys ++ x ∷ reverse xs
  around-reverse xs ys zs x h = sym (reverse-reverse zs) ∙ (ap reverse h ∙ reverse-around xs ys x)

-- `x in xs` for texts.
abbrev pub contains : List String → String → Bool
contains [] a = false
contains (x ∷ xs) a = x == a || contains xs a
