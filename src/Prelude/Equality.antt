-- ===== src/Prelude/Equality.antt =====
-- Python's `==` on the types that the sources compare, as an interface with its law, and what is
-- built from it: membership, sets, comparison of sequences.
use Prim.Native.Nat.{ℕ}
use Prim.Native.String.{String}
use mathlib.Core.Path.{◌≡◌, refl, subst}
use mathlib.Core.Logic.{◌↔◌, inl, inr}
use mathlib.Core.Bool.{Bool, true, false, ◌&&◌, ◌||◌, not}
use mathlib.Core.List.{List, [], ◌∷◌, ◌++◌}
use native.Mathlib.Omega.{arith}
use text.Mathlib.Text.{◌==◌ as str_eq}
use text.Mathlib.TextEquality.{eq_iff}
use project_firestarter.Prelude.Tests.{nat_eq, nat_eq_iff, and_iff, Bool-cases, if◌then◌else◌}
use project_firestarter.Prelude.Int.{ℤ, int_eq, int_eq_iff}
use project_firestarter.Prelude.Lists.{any, all, In, here, there, All}

infix 50 ◌==◌
-- `agrees` ties the test to the equality of the values.
pub record Eq {ℓ} (A : Type ℓ) : Type ℓ where
  pub test : A → A → Bool
  pub agrees : (x y : A) → (test x y ≡ true) ↔ (x ≡ y)

instance abbrev pub String-Eq : Eq String
String-Eq = record { test = str_eq; agrees = eq_iff }

instance abbrev pub ℤ_Eq : Eq ℤ
ℤ_Eq = record { test = int_eq; agrees = int_eq_iff }

instance abbrev pub ℕ_Eq : Eq ℕ
ℕ_Eq = record { test = nat_eq; agrees = nat_eq_iff }

abbrev pub ◌==◌ {ℓ} : {A : Type ℓ} ⦃e : Eq A⦄ → A → A → Bool
◌==◌ ⦃e⦄ x y = e.test x y

-- An enumeration is compared by its decision procedure.
abbrev pub decision {ℓ} : {A : Type ℓ} → Discrete A → A → A → Bool
decision d a b = elim (d a b) [ yes p ↦ true | no n ↦ false ]

pub decision_iff {ℓ} : {A : Type ℓ} (d : Discrete A) (a b : A) → (decision d a b ≡ true) ↔ (a ≡ b)
decision_iff d a b = ground arith

module _ {ℓ} {A : Type ℓ} ⦃e : Eq A⦄ where
  abbrev pub list_eq : List A → List A → Bool
  list_eq [] [] = true
  list_eq [] (y ∷ ys) = false
  list_eq (x ∷ xs) [] = false
  list_eq (x ∷ xs) (y ∷ ys) = x == y && list_eq xs ys

  pub list_eq_refl : (xs : List A) → list_eq xs xs ≡ true
  list_eq_refl [] = refl
  list_eq_refl (x ∷ xs) = (and_iff _ _).1 ((e.agrees x x).1 refl, list_eq_refl xs)

  pub list_eq_sound : (xs ys : List A) → list_eq xs ys ≡ true → xs ≡ ys
  list_eq_sound [] [] h = refl
  list_eq_sound [] (y ∷ ys) h = cc
  list_eq_sound (x ∷ xs) [] h = cc
  list_eq_sound (x ∷ xs) (y ∷ ys) h =
      let (p, q) = (and_iff (x == y) (list_eq xs ys)).0 h in
      cc ((e.agrees x y).0 p, list_eq_sound xs ys q)

  pub list_eq_iff : (xs ys : List A) → (list_eq xs ys ≡ true) ↔ (xs ≡ ys)
  list_eq_iff xs ys =
      (list_eq_sound xs ys, λ p. subst (λ zs. list_eq xs zs ≡ true) p (list_eq_refl xs))

  -- `a in xs`
  abbrev pub member : A → List A → Bool
  member a [] = false
  member a (x ∷ xs) = a == x || member a xs

  -- The elements of `set(xs)`.
  abbrev pub to_set : List A → List A
  to_set [] = []
  to_set (x ∷ xs) = let rest = to_set xs in if member x rest then rest else x ∷ rest

  -- `xs.issubset(ys)`
  abbrev pub subset : List A → List A → Bool
  subset xs ys = all (λ x. member x ys) xs

instance abbrev pub List-Eq {ℓ} : {A : Type ℓ} ⦃e : Eq A⦄ → Eq (List A)
List-Eq = record { test = list_eq; agrees = list_eq_iff }

module _ {ℓ} {A : Type ℓ} ⦃e : Eq A⦄ where
  pub member-In : (a : A) (xs : List A) → member a xs ≡ true → In a xs
  member-In a [] h = cc
  member-In a (x ∷ xs) h = elim (Bool-cases (a == x)) [
    | inl p ↦ subst (λ y. In a (y ∷ xs)) ((e.agrees a x).0 p) here
    | inr n ↦ there (member-In a xs (rw n at h))
  ]

  pub In-member : {a : A} {xs : List A} → In a xs → member a xs ≡ true
  In-member {a} here = rw ((e.agrees a a).1 refl) refl
  In-member {a} (there {x = x} i) = ground (arith, In-member i)

module _ {ℓ} {A : Type ℓ} ⦃e : Eq A⦄ where
  pub member-append : (x : A) (xs ys : List A) → member x (xs ++ ys) ≡ (member x xs || member x ys)
  member-append x [] ys = refl
  member-append x (y ∷ xs) ys = ground (arith, member-append x xs ys)

  pub member-last : (x : A) (xs : List A) → member x (xs ++ (x ∷ [])) ≡ true
  member-last x xs = ground (arith, member-append x xs (x ∷ []), e.agrees x x)

  -- Tests over members as statements about each item.
  pub subset_iff : (xs ys : List A) → (subset xs ys ≡ true) ↔ All (λ x. In x ys) xs
  subset_iff [] ys = (λ h. tt, λ h. refl)
  subset_iff (x ∷ xs) ys = (
    λ h.
        let (p, q) = (and_iff (member x ys) (subset xs ys)).0 h in
        (member-In x ys p, (subset_iff xs ys).0 q),
    λ h. (and_iff (member x ys) (subset xs ys)).1 (In-member h.0, (subset_iff xs ys).1 h.1),
  )

  pub none_outside_iff :
      (xs ys : List A) → (any (λ x. not (member x ys)) xs ≡ false) ↔ All (λ x. In x ys) xs
  none_outside_iff [] ys = (λ h. tt, λ h. refl)
  none_outside_iff (x ∷ xs) ys = (
    λ h.
        let parts : (member x ys ≡ true) × (any (λ z. not (member z ys)) xs ≡ false) =
          ground arith in
        (member-In x ys parts.0, (none_outside_iff xs ys).0 parts.1),
    λ h.
        let p : member x ys ≡ true = In-member h.0 in
        let q : any (λ z. not (member z ys)) xs ≡ false = (none_outside_iff xs ys).1 h.1 in
        ground arith,
  )

-- Tuples of two.
module _ {ℓ κ} {A : Type ℓ} {B : Type κ} ⦃d : Eq A⦄ ⦃e : Eq B⦄ where
  abbrev pub pair_eq : A × B → A × B → Bool
  pair_eq (a, b) (c, f) = a == c && b == f

  pub pair_eq_iff : (x y : A × B) → (pair_eq x y ≡ true) ↔ (x ≡ y)
  pair_eq_iff (a, b) (c, f) = ground (arith, d.agrees a c, e.agrees b f)

  instance abbrev pub Pair-Eq : Eq (A × B)
  Pair-Eq = record { test = pair_eq; agrees = pair_eq_iff }
