-- ===== src/Prelude/Reversal.antt =====
-- What a reversed list shares with the list.
use mathlib.Core.Path.{◌≡◌, refl, ap, sym, subst, ◌∙◌}
use mathlib.Core.List.{List, [], ◌∷◌, ◌++◌, reverse, reverse-cons}
use native.Mathlib.Omega.{arith}
use project_firestarter.Prelude.Lists.{length, length-append, All}
use project_firestarter.Prelude.Equality.{Eq, member, member-append}

module _ {ℓ} {A : Type ℓ} where
  pub length-reverse : (xs : List A) → length (reverse xs) ≡ length xs
  length-reverse [] = refl
  length-reverse (x ∷ xs) =
      ap length (reverse-cons x xs)
      ∙ omega (arith, length-append (reverse xs) (x ∷ []), length-reverse xs)

  pub All_map {κ μ} :
      {P : A → Type κ} {Q : A → Type μ}
      → ((x : A) → P x → Q x)
      → (xs : List A) → All P xs
      → All Q xs
  All_map f [] a = tt
  All_map f (x ∷ xs) (p, a) = (f x p, All_map f xs a)

  All-append {κ} : (P : A → Type κ) (xs ys : List A) → All P xs → All P ys → All P (xs ++ ys)
  All-append P [] ys a b = b
  All-append P (x ∷ xs) ys (p, a) b = (p, All-append P xs ys a b)

  pub All-reverse {κ} : (P : A → Type κ) (xs : List A) → All P xs → All P (reverse xs)
  All-reverse P [] a = tt
  All-reverse P (x ∷ xs) (p, a) =
      subst (All P) (sym (reverse-cons x xs))
        (All-append P (reverse xs) (x ∷ []) (All-reverse P xs a) (p, tt))

module _ {ℓ} {A : Type ℓ} ⦃e : Eq A⦄ where
  pub member-reverse : (x : A) (xs : List A) → member x (reverse xs) ≡ member x xs
  member-reverse x [] = refl
  member-reverse x (y ∷ xs) =
      ap (member x) (reverse-cons y xs)
      ∙ ground (arith, member-append x (reverse xs) (y ∷ []), member-reverse x xs)
