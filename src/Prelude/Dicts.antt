-- ===== src/Prelude/Dicts.antt =====
-- Python's dict as an association list in insertion order, with one entry a key.
use mathlib.Core.Path.{◌≡◌, refl}
use mathlib.Core.Option.{Option, none, some}
use mathlib.Core.List.{List, [], ◌∷◌}
use native.Mathlib.Omega.{arith}
use project_firestarter.Prelude.Tests.{if◌then◌else◌}
use project_firestarter.Prelude.Equality.{Eq, ◌==◌}

abbrev pub Dict {ℓ κ} : Type ℓ → Type κ → Type (ℓ ⊔ κ)
Dict K V = List (K × V)

module _ {ℓ κ} {K : Type ℓ} {V : Type κ} ⦃e : Eq K⦄ where
  -- `d.get(k)`
  unfoldable pub lookup : Dict K V → K → Option V
  lookup [] k = none
  lookup ((j, v) ∷ d) k = if j == k then some v else lookup d k

  -- `d[k] = v`
  unfoldable pub insert : Dict K V → K → V → Dict K V
  insert [] k v = (k, v) ∷ []
  insert ((j, w) ∷ d) k v = if j == k then (j, v) ∷ d else (j, w) ∷ insert d k v

  -- `d.pop(k, None)`
  unfoldable pub pop : Dict K V → K → Dict K V
  pop [] k = []
  pop ((j, w) ∷ d) k = let rest = pop d k in if j == k then rest else (j, w) ∷ rest

  pub lookup-insert :
      (d : Dict K V) (k j : K) (v : V)
      → lookup (insert d k v) j ≡ (if k == j then some v else lookup d j)
  unfolding lookup insert
  lookup-insert [] k j v = refl
  lookup-insert ((i, w) ∷ d) k j v =
      ground (arith, e.agrees k j, e.agrees i k, e.agrees i j, lookup-insert d k j v)

  pub lookup-insert_self : (d : Dict K V) (k : K) (v : V) → lookup (insert d k v) k ≡ some v
  lookup-insert_self d k v = rw (lookup-insert d k k v, (e.agrees k k).1 refl) refl

  pub lookup-pop :
      (d : Dict K V) (k j : K) → lookup (pop d k) j ≡ (if k == j then none else lookup d j)
  unfolding lookup pop
  lookup-pop [] k j = ground arith
  lookup-pop ((i, w) ∷ d) k j =
      ground (arith, e.agrees k j, e.agrees i k, e.agrees i j, lookup-pop d k j)

  pub lookup-pop_self : (d : Dict K V) (k : K) → lookup (pop d k) k ≡ none
  lookup-pop_self d k = rw (lookup-pop d k k, (e.agrees k k).1 refl) refl
